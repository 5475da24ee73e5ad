-- ===== src/Paging/Evict.antt =====
-- A3/fifo.c, A3/rand.c, A3/lru.c: the victim is a frame.
use csc369_assignments.Prelude.{
  ℕ, zero, suc, ◌+◌, ◌%◌, ◌≤◌, ◌<◌, ◌≡◌, refl, ap, ◌∙◌, inl, inr, some, ◌==◌, ltb, arith,
  Bool-cases,
}
use native.Mathlib.Nat.{mod-lt, mod-eq_of_lt, mod_self}
use csc369_assignments.Prelude.State.{Returns, returns}
use csc369_assignments.Paging.Machine.{Os, Machine, Frame}
use csc369_assignments.Paging.Policies.{mod_memsize, fifo_evict, rand_evict, lru_scan, lru_evict}
use csc369_assignments.Paging.Steady.{Steady, Steady-refl, Steady-books}

-- The next place in a circle.
pub turn-lt : (n i : ℕ) → 0 < n → (i + 1) % n < n
turn-lt n i h = mod-lt (i + 1) h

-- The victim of `lru_evict` is a frame.
pub lru_scan-lt :
    (n rounds i : ℕ) (coremap : ℕ → Frame) (best victim : ℕ)
    → i + rounds ≤ n
    → victim < n
    → lru_scan rounds i coremap best victim < n
unfolding lru_scan
lru_scan-lt n zero i coremap best victim h lt = lt
lru_scan-lt n (suc rounds) i coremap best victim h lt =
    elim (Bool-cases (ltb (coremap i).time best)) [
      | inl older ↦ rw older (lru_scan-lt n rounds (suc i) coremap _ i (omega arith) (omega arith))
      | inr newer ↦ rw newer (lru_scan-lt n rounds (suc i) coremap _ victim (omega arith) lt)
    ]

-- The scan keeps a frame that is no younger than those it has seen.
lru_scan_least :
    (rounds i : ℕ) (coremap : ℕ → Frame) (best victim : ℕ)
    → (coremap victim).time ≤ best
    → ((j : ℕ) → j < i → best ≤ (coremap j).time)
    → (j : ℕ) → j < i + rounds
    → (coremap (lru_scan rounds i coremap best victim)).time ≤ (coremap j).time
unfolding lru_scan
lru_scan_least zero i coremap best victim low seen j lt = omega (arith, seen j (omega arith))
lru_scan_least (suc rounds) i coremap best victim low seen j lt =
    elim (Bool-cases (ltb (coremap i).time best)) [
      | inl older ↦ rw older (
          lru_scan_least rounds (suc i) coremap (coremap i).time i (omega arith)
            (λ k below. elim (Bool-cases (k == i)) [
              | inl same ↦ ground arith
              | inr other ↦ ground (arith, seen k)
            ])
            j (omega arith))
      | inr newer ↦ rw newer (
          lru_scan_least rounds (suc i) coremap best victim low
            (λ k below. elim (Bool-cases (k == i)) [
              | inl same ↦ ground arith
              | inr other ↦ ground (arith, seen k)
            ])
            j (omega arith))
    ]

module _ {File : Type 0} where
  -- What a replacement algorithm is to return.
  abbrev pub IsVictim : Machine File → ℕ → Machine File → Type 0
  IsVictim m i m' = (i < m.memsize) × Steady 0 m m'

  mod_memsize_run :
      (n : ℕ) (m : Machine File) → 0 < m.memsize → mod_memsize n m ≡ some (n % m.memsize, m)
  mod_memsize_run n m h = ground arith

  -- `fifo_evict` returns the frame that `cur_page` stands at, and moves on to the next in a circle.
  fifo_run :
      (m : Machine File)
      → m.cur_page < m.memsize
      → fifo_evict m ≡ some (m.cur_page, record m { cur_page = (m.cur_page + 1) % m.memsize })
  unfolding fifo_evict
  fifo_run m h = elim (Bool-cases (ltb (m.cur_page + 1) m.memsize)) [
    | inl inner ↦
        let e : (m.cur_page + 1) % m.memsize ≡ m.cur_page + 1 = mod-eq_of_lt (ground arith) in
        rw (mod_memsize_run (m.cur_page + 1) m (omega arith), e) (ground arith)
    | inr last ↦
        let q : m.cur_page + 1 ≡ m.memsize = ground arith in
        let e : (m.cur_page + 1) % m.memsize ≡ 0 = ap (λ k. k % m.memsize) q ∙ mod_self m.memsize in
        rw (mod_memsize_run (m.cur_page + 1) m (omega arith), e) (ground arith)
  ]

  pub fifo_lem : (m : Machine File) → m.cur_page < m.memsize → Returns (IsVictim m) (fifo_evict m)
  fifo_lem m h = rw (fifo_run m h) (
      returns (
        h,
        Steady-books 0 m m.coremap m.clock_hand ((m.cur_page + 1) % m.memsize) m.timestamp m.draws
            m.curr_node (λ i. refl) (λ i. refl) (λ q. q)
            (λ q. turn-lt m.memsize m.cur_page (omega arith)) (omega arith),
      ))

  pub lru_lem : (m : Machine File) → 0 < m.memsize → Returns (IsVictim m) (lru_evict m)
  unfolding lru_evict
  lru_lem m h =
      returns
        (lru_scan-lt m.memsize m.memsize 0 m.coremap m.timestamp 0 (omega arith) h, Steady-refl 0 m)

  -- `lru_evict` returns a frame whose last reference is no later than that of any other, as long as
  -- frame 0 has not been stamped with a time to come.
  pub lru_evict_lem :
      (m : Machine File)
      → 0 < m.memsize
      → (m.coremap 0).time ≤ m.timestamp
      → Returns
          (λ i m'.
            (i < m.memsize)
            × (m' ≡ m)
            × ((j : ℕ) → j < m.memsize → (m.coremap i).time ≤ (m.coremap j).time))
          (lru_evict m)
  unfolding lru_evict
  lru_evict_lem m h past = returns (
    lru_scan-lt m.memsize m.memsize 0 m.coremap m.timestamp 0 (omega arith) h,
    refl,
    λ j lt.
        lru_scan_least m.memsize 0 m.coremap m.timestamp 0 past (λ k below. absurd (omega arith)) j
          (omega arith),
  )

module _ (os : Os) where
  pub rand_lem : (m : Machine os.File) → 0 < m.memsize → Returns (IsVictim m) (rand_evict os m)
  unfolding rand_evict
  rand_lem m h = rw (mod_memsize_run (os.random m.draws) m h) (
      returns (
        mod-lt (os.random m.draws) h,
        Steady-books 0 m m.coremap m.clock_hand m.cur_page m.timestamp (m.draws + 1) m.curr_node
            (λ i. refl) (λ i. refl) (λ q. q) (λ q. q) (omega arith),
      ))

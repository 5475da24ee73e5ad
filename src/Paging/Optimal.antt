-- ===== src/Paging/Optimal.antt =====
-- A3/opt.c: the victim of `opt_evict` is a frame.
pub mod Distances
pub mod Farthest
pub mod Keep
pub mod Foresight
pub mod Reach
pub mod Trace
mod Tests
use csc369_assignments.Prelude.{
  ℕ, zero, suc, ◌+◌, ◌/◌, ◌≤◌, ◌<◌, ◌≡◌, refl, inl, inr, true, false, Option, none, some, length,
  ◌==◌, ltb, arith, Bool-cases, Option-cases, update,
}
use csc369_assignments.Prelude.State.{Returns, returns, bind, mono, and_then}
use csc369_assignments.Paging.Machine.{Machine, Frame, page_size, core, put_core}
use csc369_assignments.Paging.Policies.{distance, opt_distances, opt_farthest, opt_evict}
use csc369_assignments.Paging.Steady.{Steady, Steady-refl, Steady-books, Steady-trans}
use csc369_assignments.Paging.Evict.{IsVictim}

pub opt_farthest-lt :
    (n rounds i : ℕ) (coremap : ℕ → Frame) (highest victim : ℕ)
    → i + rounds ≤ n
    → victim < n
    → opt_farthest rounds i coremap highest victim < n
unfolding opt_farthest
opt_farthest-lt n zero i coremap highest victim h lt = lt
opt_farthest-lt n (suc rounds) i coremap highest victim h lt =
    elim (Bool-cases (ltb highest (coremap i).fst_occ)) [
      | inl farther ↦
          rw farther (opt_farthest-lt n rounds (suc i) coremap _ i (omega arith) (omega arith))
      | inr nearer ↦ rw nearer (opt_farthest-lt n rounds (suc i) coremap _ victim (omega arith) lt)
    ]

module _ {File : Type 0} where
  abbrev Scanned : Machine File → Option ℕ → Machine File → Type 0
  Scanned m found m' = Steady 0 m m' × ((j : ℕ) → found ≡ some j → j < m.memsize)

  abbrev pub occurs_in : Machine File → ℕ → ℕ → Machine File
  occurs_in m i d = record m { coremap = update m.coremap i (record (m.coremap i) { fst_occ = d }) }

  Steady-occurs_in : (m : Machine File) (i d : ℕ) → Steady 0 m (occurs_in m i d)
  Steady-occurs_in m i d =
      Steady-books 0 m (occurs_in m i d).coremap m.clock_hand m.cur_page m.timestamp m.draws
        m.curr_node (λ j. ground arith) (λ j. ground arith) (λ q. q) (λ q. q) (omega arith)

  opt_distances_end : (i : ℕ) (m : Machine File) → Returns (Scanned m) (opt_distances zero i m)
  unfolding opt_distances
  opt_distances_end i m = returns (Steady-refl 0 m, λ j e. cc)

  pub opt_distances_known :
      (rounds i : ℕ) (m : Machine File)
      → ((m.coremap i).fst_occ == 0) ≡ false
      → opt_distances (suc rounds) i m ≡ opt_distances rounds (suc i) m
  unfolding opt_distances
  opt_distances_known rounds i m known = rw known refl

  module _ (rounds i : ℕ) (m : Machine File) (left : 0 < length m.curr_node)
      (unknown : ((m.coremap i).fst_occ == 0) ≡ true) where
    pub opt_distances-none :
        distance ((m.coremap i).vaddr / page_size) m.curr_node ≡ none
        → opt_distances (suc rounds) i m ≡ some (some i, occurs_in m i 0)
    unfolding opt_distances
    opt_distances-none never = ground arith

    pub opt_distances-some :
        (d : ℕ)
        → distance ((m.coremap i).vaddr / page_size) m.curr_node ≡ some d
        → opt_distances (suc rounds) i m ≡ opt_distances rounds (suc i) (occurs_in m i d)
    unfolding opt_distances
    opt_distances-some d far = ground arith

  -- The first loop of `opt_evict` finds a frame, or none.
  opt_distances_lem :
      (rounds i : ℕ) (m : Machine File)
      → i + rounds ≤ m.memsize
      → 0 < length m.curr_node
      → Returns (Scanned m) (opt_distances rounds i m)
  opt_distances_lem zero i m h left = opt_distances_end i m
  opt_distances_lem (suc rounds) i m h left = elim (Bool-cases ((m.coremap i).fst_occ == 0)) [
    | inr known ↦
        rw (opt_distances_known rounds i m known)
          (opt_distances_lem rounds (suc i) m (omega arith) left)
    | inl unknown ↦ elim (Option-cases (distance ((m.coremap i).vaddr / page_size) m.curr_node)) [
      | inl never ↦
          rw (opt_distances-none rounds i m left unknown never)
            (returns (Steady-occurs_in m i 0, λ j e. ground arith))
      | inr (d, far) ↦ rw (opt_distances-some rounds i m left unknown d far) (
          mono (opt_distances_lem rounds (suc i) (occurs_in m i d) (omega arith) left)
            (λ found m' (s, lt).
              (Steady-trans m (occurs_in m i d) m' (Steady-occurs_in m i d) s, lt)))
    ]
  ]

  -- The end of `opt_evict`.
  opt_choice :
      (m m1 : Machine File) (found : Option ℕ)
      → 0 < m.memsize
      → Scanned m found m1
      → Returns (IsVictim m) (elim found [
        | some i ↦ some (i, m1)
        | none ↦
            let victim = opt_farthest m1.memsize 0 m1.coremap 0 0 in
            and_then (core victim m1) λ c m2.
              and_then (put_core victim (record c { fst_occ = 0 }) m2) λ _ m3. some (victim, m3)
      ])
  opt_choice m m1 (some i) h (s, lt) = returns (lt i refl, s)
  opt_choice m m1 none h (s, lt) =
      let victim = opt_farthest m1.memsize 0 m1.coremap 0 0 in
      let small : victim < m1.memsize =
        opt_farthest-lt m1.memsize m1.memsize 0 m1.coremap 0 0 (omega arith)
          (omega (arith, s.memsize)) in
      let inside : ltb victim m1.memsize ≡ true = ground arith in
      rw (inside, inside)
        (returns (
          omega (arith, s.memsize),
          Steady-trans m m1 (occurs_in m1 victim 0) s (Steady-occurs_in m1 victim 0),
        ))

  pub opt_lem :
      (m : Machine File)
      → 0 < m.memsize
      → 0 < length m.curr_node
      → Returns (IsVictim m) (opt_evict m)
  unfolding opt_evict
  opt_lem m h left =
      bind (opt_distances_lem m.memsize 0 m (omega arith) left)
        (λ found m1 scanned. opt_choice m m1 found h scanned)

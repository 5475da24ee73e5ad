-- ===== src/Paging/Policy.antt =====
-- A3/pagetable.h: `evict_fcn` and `ref_fcn`, whichever algorithm they stand for.
use csc369_assignments.Prelude.{
  ℕ, ◌+◌, ◌-◌, ◌≤◌, ◌<◌, ◌≡◌, refl, ap, true, some, List, ◌∷◌, length, ltb, ◌==◌, if◌then◌else◌,
  arith, List-cases, inl, inr, update, not, ◌&&◌,
}
use native.Mathlib.Nat.{mod-lt}
use csc369_assignments.Prelude.State.{Returns, returns, mono}
use csc369_assignments.Paging.Machine.{Os, Machine, Frame}
use csc369_assignments.Paging.Policies.{
  Algorithm, rand, lru, fifo, clock, opt, clock_ref, lru_ref, opt_ref, ref_fcn, evict_fcn,
}
use csc369_assignments.Paging.Invariant.{IsSound, home}
use csc369_assignments.Paging.Steady.{Steady, Steady-refl, Steady-books, Alike-set_ref}
use csc369_assignments.Paging.Evict.{IsVictim, fifo_lem, lru_lem, rand_lem}
use csc369_assignments.Paging.Optimal.{opt_lem}
use csc369_assignments.Paging.Clock.{AllOwned}
use csc369_assignments.Paging.Clock.Loop.{clock_evict-IsSecond}

-- The optimal algorithm needs the list of the references to come, `n` of them.
abbrev pub Foresees : {File : Type 0} → Algorithm → ℕ → Machine File → Type 0
Foresees rand n m = Unit {0}
Foresees lru n m = Unit {0}
Foresees fifo n m = Unit {0}
Foresees clock n m = Unit {0}
Foresees opt n m = n ≤ length m.curr_node

module _ {File : Type 0} where
  pub Foresees-Steady :
      (alg : Algorithm) (n k : ℕ) (m m' : Machine File)
      → Steady k m m'
      → Foresees alg (n + k) m
      → Foresees alg n m'
  Foresees-Steady rand n k m m' s h = tt
  Foresees-Steady lru n k m m' s h = tt
  Foresees-Steady fifo n k m m' s h = tt
  Foresees-Steady clock n k m m' s h = tt
  Foresees-Steady opt n k m m' s h = omega (arith, s.nodes)

  pub Foresees-le :
      (alg : Algorithm) (n k : ℕ) (m : Machine File) → k ≤ n → Foresees alg n m → Foresees alg k m
  Foresees-le rand n k m le h = tt
  Foresees-le lru n k m le h = tt
  Foresees-le fifo n k m le h = tt
  Foresees-le clock n k m le h = tt
  Foresees-le opt n k m le h = omega arith

  -- Only the length of the list matters.
  pub Foresees-nodes :
      (alg : Algorithm) (n : ℕ) (m m' : Machine File)
      → length m.curr_node ≤ length m'.curr_node
      → Foresees alg n m
      → Foresees alg n m'
  Foresees-nodes rand n m m' le h = tt
  Foresees-nodes lru n m m' le h = tt
  Foresees-nodes fifo n m m' le h = tt
  Foresees-nodes clock n m m' le h = tt
  Foresees-nodes opt n m m' le h = omega arith

  clock_ref_lem : (v : ℕ) (m : Machine File) → Returns (λ _ m'. Steady 1 m m') (clock_ref v m)
  unfolding clock_ref
  clock_ref_lem v m =
      let s = Steady-refl 1 m in
      returns (record {
        memsize = refl;
        physmem = refl;
        present = refl;
        swapmap = refl;
        swapfile = refl;
        hits = refl;
        misses = refl;
        refs = refl;
        used = s.used;
        owned = s.owned;
        alike = Alike-set_ref m.ptes v;
        hand = s.hand;
        next = s.next;
        nodes = s.nodes;
      })

  lru_ref_lem :
      (v : ℕ) (m : Machine File)
      → home (m.ptes v) < m.memsize
      → Returns (λ _ m'. Steady 1 m m') (lru_ref v m)
  unfolding lru_ref
  lru_ref_lem v m lt =
      let f = home (m.ptes v) in
      let inside : ltb f m.memsize ≡ true = ground arith in
      let timed = update m.coremap f (record (m.coremap f) { time = m.timestamp }) in
      rw (inside, inside)
        (returns (
          Steady-books 1 m timed m.clock_hand m.cur_page (m.timestamp + 1) m.draws m.curr_node
            (λ i. ground arith) (λ i. ground arith) (λ q. q) (λ q. q) (omega arith)))

  -- One reference has passed: every frame is one step nearer to its next occurrence.
  abbrev pub nearer : Machine File → ℕ → Frame
  nearer m i =
      let c = m.coremap i in
      if ltb i m.memsize && not (c.fst_occ == 0) then record c { fst_occ = c.fst_occ - 1 } else c

  pub opt_ref_run :
      (v a : ℕ) (rest : List ℕ) (m : Machine File)
      → m.curr_node ≡ a ∷ rest
      → opt_ref v m ≡ some (tt, record m { curr_node = rest; coremap = nearer m })
  unfolding opt_ref
  opt_ref_run v a rest m e = rw e refl

  opt_ref_lem :
      (v : ℕ) (m : Machine File)
      → 0 < length m.curr_node
      → Returns (λ _ m'. Steady 1 m m') (opt_ref v m)
  opt_ref_lem v m left = elim (List-cases m.curr_node) [
    | inl e ↦ absurd (omega (arith, ap length e))
    | inr (a, rest, e) ↦
        let shorter = ap length e in
        rw (opt_ref_run v a rest m e) (
          returns (
            Steady-books 1 m (nearer m) m.clock_hand m.cur_page m.timestamp m.draws rest
              (λ i. ground arith) (λ i. ground arith) (λ q. q) (λ q. q) (omega arith)))
  ]

  pub ref_lem :
      (alg : Algorithm) (v : ℕ) (m : Machine File)
      → home (m.ptes v) < m.memsize
      → Foresees alg 1 m
      → Returns (λ _ m'. Steady 1 m m') (ref_fcn alg v m)
  unfolding ref_fcn
  ref_lem rand v m lt h = returns (Steady-refl 1 m)
  ref_lem lru v m lt h = lru_ref_lem v m lt
  ref_lem fifo v m lt h = returns (Steady-refl 1 m)
  ref_lem clock v m lt h = clock_ref_lem v m
  ref_lem opt v m lt h = opt_ref_lem v m h

module _ (os : Os) (pages : ℕ) where
  -- With all frames in use, they all have pages.
  all_owned :
      (m : Machine os.File)
      → IsSound os pages m
      → ((i : ℕ) → i < m.memsize → (m.coremap i).in_use ≡ true)
      → AllOwned m
  all_owned m ok used i lt =
      let (v, _, page, good, at) = ok.frames.owner i lt (λ q. omega arith) (used i lt) in
      (v, page, good, at)

  pub evict_lem :
      (alg : Algorithm) (m : Machine os.File)
      → IsSound os pages m
      → ((i : ℕ) → i < m.memsize → (m.coremap i).in_use ≡ true)
      → Foresees alg 1 m
      → Returns (IsVictim m) (evict_fcn os alg m)
  unfolding evict_fcn
  evict_lem rand m ok used h = rand_lem os m ok.some_memory
  evict_lem lru m ok used h = lru_lem m ok.some_memory
  evict_lem fifo m ok used h = fifo_lem m ok.next
  evict_lem clock m ok used h =
      mono (clock_evict-IsSecond m ok.hand (all_owned m ok used)) (λ i m' s.
        (rw s.position (mod-lt (m.clock_hand + s.steps) {m = m.memsize} ok.some_memory), s.steady))
  evict_lem opt m ok used h = opt_lem m ok.some_memory h

-- ===== src/Paging/Optimal/Trace.antt =====
-- A3/opt.c, A3/sim.c: the victims of the optimal algorithm in the simulation of a trace.
use csc369_assignments.Prelude.{
  ℕ, suc, ◌≤◌, ◌^◌, ◌⊎◌, [], ◌∷◌, sym, ◌/◌, ◌<◌, ◌≡◌, refl, ap, ◌∙◌, Bool, true, false, Option,
  none, some, List, length, ◌==◌, arith, inl, inr,
}
use csc369_assignments.Prelude.State.{Returns, Sure, gives, mono, sure_outcome}
use csc369_assignments.Paging.Machine.{Os, Machine, page_size}
use csc369_assignments.Paging.Policies.{opt, opt_evict, distance}
use csc369_assignments.Paging.Sim.{Line, access_mem}
use csc369_assignments.Paging.Start.{opt_init, trace_pages}
use csc369_assignments.Paging.Optimal.Distances.{next_use}
use csc369_assignments.Paging.Optimal.Farthest.{opt_evict_lem}
use csc369_assignments.Paging.Optimal.Keep.{View}
use csc369_assignments.Paging.Optimal.Foresight.{IsForesight, IsForesight-View}
use csc369_assignments.Paging.Optimal.Reach.{accessed}

-- A reference of the trace that is no comment and has its address.
pub record Access : Type 0 where
  pub type : ℕ
  pub vaddr : ℕ

-- The lines of a trace file, and the pages that they refer to.
abbrev pub lines : List Access → List Line
lines [] = []
lines (x ∷ xs) = record { first = x.type; addr = some x.vaddr } ∷ lines xs

abbrev pub pages : List Access → List ℕ
pages [] = []
pages (x ∷ xs) = x.vaddr / page_size ∷ pages xs

abbrev pub NoComment : List Access → Type 0
NoComment [] = Unit {0}
NoComment (x ∷ xs) = ((x.type == b'=') ≡ false) × NoComment xs

length-pages : (xs : List Access) → length (pages xs) ≡ length xs
length-pages [] = refl
length-pages (x ∷ xs) = ap suc (length-pages xs)

trace_pages-lines : (addr : ℕ) (xs : List Access) → trace_pages addr (lines xs) ≡ pages xs
unfolding trace_pages
trace_pages-lines addr [] = refl
trace_pages-lines addr (x ∷ xs) = ap (λ l. x.vaddr / page_size ∷ l) (trace_pages-lines x.vaddr xs)

module _ (os : Os) where
  -- The states between the accesses of a simulation of a trace with the optimal algorithm, whatever
  -- the system calls do, with the accesses that are still to come: what `opt_init` leaves of
  -- the whole trace, and what the next access leaves.
  pub data Simulated : List Access → Machine os.File → Type 0 where
    begins :
        (addr : ℕ) (xs : List Access) (m m' : Machine os.File)
        → 0 < m.memsize
        → NoComment xs
        → length xs ≤ 2 ^ 31
        → opt_init true addr (lines xs) m ≡ some (tt, m')
        → Simulated xs m'
    goes_on :
        (x : Access) (xs : List Access) (good : Bool) (m m' : Machine os.File)
        → Simulated (x ∷ xs) m
        → access_mem os opt x.type x.vaddr m ≡ some (good, m')
        → Simulated xs m'

  begun :
      (addr : ℕ) (xs : List Access) (m : Machine os.File)
      → 0 < m.memsize
      → length xs ≤ 2 ^ 31
      → Sure (λ _ m'. IsForesight (pages xs) m') (opt_init true addr (lines xs) m)
  unfolding opt_init
  begun addr xs m some_memory short = gives (record {
    some_memory = some_memory;
    to_come = trace_pages-lines addr xs;
    short = omega (arith, length-pages xs);
    foreseen = λ j lt held. absurd (ground arith);
    unused = λ j lt none_yet. ground arith;
  })

  Simulated-IsForesight :
      (xs : List Access) (m : Machine os.File) → Simulated xs m → IsForesight (pages xs) m
  Simulated-IsForesight xs m' (begins addr _ m _ some_memory plain short e) =
      sure_outcome (begun addr xs m some_memory short) e
  Simulated-IsForesight xs m' (goes_on x _ good m _ before e) =
      sure_outcome
        (accessed os (x.vaddr / page_size) (pages xs) x.type x.vaddr m
          (Simulated-IsForesight (x ∷ xs) m before))
        e

  -- After how many of the accesses to come the page in a frame is used; `none` where it is not.
  abbrev pub next_access : List Access → Machine os.File → ℕ → Option ℕ
  next_access xs m i = distance ((m.coremap i).vaddr / page_size) (pages xs)

  -- No access to come uses the page of frame `i`, or all pages in memory are used, and none later.
  abbrev pub IsUsedLast : List Access → Machine os.File → ℕ → Type 0
  IsUsedLast xs m i =
      (next_access xs m i ≡ none)
      ⊎ ((j : ℕ)
          → j < m.memsize
          → (d d' : ℕ) × (next_access xs m j ≡ some d) × (next_access xs m i ≡ some d') × (d ≤ d'))

  -- In a simulation of a trace of at most 2 ^ 31 accesses without comment lines with the optimal
  -- algorithm, `opt_evict` returns when the next access has to evict, and picks a frame whose page no
  -- access that is still to come uses, or, where all pages in memory are used again, one than whose
  -- page no page in memory is used later. The simulator is at any state `m` between two accesses,
  -- changed to `m1` in anything but the frames and the list.
  pub opt_evict-IsUsedLast :
      (x : Access) (xs : List Access) (m m1 : Machine os.File)
      → Simulated (x ∷ xs) m
      → View m m1
      → Returns (λ i m'. (i < m.memsize) × IsUsedLast (x ∷ xs) m i) (opt_evict m1)
  opt_evict-IsUsedLast x xs m m1 reached v =
      let fs = IsForesight-View m m1 v (Simulated-IsForesight (x ∷ xs) m reached) in
      let same : (j : ℕ) → next_use m1 j ≡ next_access (x ∷ xs) m j =
        λ j. rw (v.1, fs.to_come) refl in
      mono
        (opt_evict_lem m1 fs.some_memory (omega (arith, ap length fs.to_come))
          (omega (arith, ap length fs.to_come, fs.short)) fs.foreseen)
        (λ i m' (lt, farthest, _, _, _). (
          omega (arith, v.0),
          elim farthest [
            | inl never ↦ inl (sym (same i) ∙ never)
            | inr last ↦ inr (λ j below.
                let (d, d', at, at', le) = last j (omega (arith, v.0)) in
                (d, d', sym (same j) ∙ at, sym (same i) ∙ at', le))
          ],
        ))

-- ===== src/Paging/Whole.antt =====
-- A3/sim.c: a whole simulation.
use csc369_assignments.Prelude.{
  ℕ, ◌+◌, ◌^◌, ◌≤◌, ◌<◌, ◌≡◌, refl, sym, ap, ◌∙◌, Bool, true, false, none, some, List, [], ◌∷◌,
  length, replicate, ltb, if◌then◌else◌, arith, inl,
}
use csc369_assignments.Prelude.State.{Returns, returns, bind, mono}
use csc369_assignments.Prelude.Word.{test_bit-zero}
use csc369_assignments.Swap.Bitmap.{Bitmap, bitmap_create, bitmap_isset}
use csc369_assignments.Swap.Bitmap.Valid.{IsValid}
use csc369_assignments.Swap.Bitmap.Create.{bitmap_create-IsValid}
use csc369_assignments.Paging.Machine.{Page, Os, Machine, Frame, pg_valid, pg_onswap}
use csc369_assignments.Paging.Policies.{Algorithm, rand, lru, fifo, clock, opt}
use csc369_assignments.Paging.Table.{blank_pte}
use csc369_assignments.Paging.Sim.{Line, replay_trace}
use csc369_assignments.Paging.Invariant.{IsReliable, IsSound, is_valid, on_swap}
use csc369_assignments.Paging.Slotting.{pos-ne}
use csc369_assignments.Paging.Policy.{Foresees}
use csc369_assignments.Paging.Replay.{AllPages, accesses, replay_from_lem}
use csc369_assignments.Paging.Start.{
  globals, trace_pages, swap_init, init_pagetable, init_fcn, lru_init, opt_init, simulate,
}

-- The list is long enough: lines that are skipped count as well.
accesses-le : (addr : ℕ) (ls : List Line) → accesses ls ≤ length (trace_pages addr ls)
unfolding accesses trace_pages
accesses-le addr [] = omega arith
accesses-le addr (l ∷ ls) =
    let addr' : ℕ = elim l.addr [ none ↦ addr | some a ↦ a ] in ground (arith, accesses-le addr' ls)

valid-blank : is_valid blank_pte ≡ false
valid-blank = test_bit-zero pg_valid

on_swap-blank : on_swap blank_pte ≡ false
on_swap-blank = test_bit-zero pg_onswap

module _ (os : Os) (pages memsize : ℕ) where
  -- The state once the structures are there and nothing has been referenced.
  pub record IsStart (m : Machine os.File) : Type 0 where
    pub size : m.memsize ≡ memsize
    pub hand : m.clock_hand ≡ 0
    pub next : m.cur_page ≡ 0
    pub unused : (i : ℕ) → (m.coremap i).in_use ≡ false
    pub blank : (v : ℕ) → m.ptes v ≡ blank_pte
    pub map : IsValid m.swapmap
    pub free : (j : ℕ) → j < m.swapmap.nbits → bitmap_isset m.swapmap j ≡ false
    pub enough : pages ≤ m.swapmap.nbits
    pub small : m.swapmap.nbits < 2 ^ 27
    pub hits : m.hit_count ≡ 0
    pub misses : m.miss_count ≡ 0
    pub refs : m.ref_count ≡ 0

  pub IsSound-start :
      (m : Machine os.File) → 0 < memsize → memsize < 2 ^ 20 → IsStart m → IsSound os pages m
  IsSound-start m some_memory memory s =
      let bad = λ (v : ℕ). ap is_valid (s.blank v) ∙ valid-blank in
      let off = λ (v : ℕ). ap on_swap (s.blank v) ∙ on_swap-blank in
      record {
        some_memory = rw s.size some_memory;
        memory = rw s.size memory;
        hand = omega (arith, s.size, s.hand);
        next = omega (arith, s.size, s.next);
        frames = record {
          owner = λ i lt ne used. let u = s.unused i in cc;
          placed = λ v good. let b = bad v in cc;
        };
        slots = record {
          map = s.map;
          enough = s.enough;
          small = s.small;
          slot = λ v. inl (ap (λ e. e.swap_off) (s.blank v));
          own = λ u v k at _.
              let none_yet = ap (λ e. e.swap_off) (s.blank u) in
              absurd (pos-ne k 0 (sym at ∙ none_yet));
          used = λ k lt taken. let f = s.free k lt in cc;
        };
        contents = record {
          swapped = λ v on. let f = off v in cc;
          resident = λ v good. let b = bad v in cc;
        };
        tables = record { absent = λ v h. (bad v, off v, ap (λ e. e.swap_off) (s.blank v)) };
      }

  -- The books of an algorithm are started.
  IsStart-books :
      (m : Machine os.File) (coremap : ℕ → Frame) (time : ℕ) (nodes : List ℕ)
      → ((i : ℕ) → (coremap i).in_use ≡ (m.coremap i).in_use)
      → IsStart m
      → IsStart (record m { coremap = coremap; timestamp = time; curr_node = nodes })
  IsStart-books m coremap time nodes same s = record {
    size = s.size;
    hand = s.hand;
    next = s.next;
    unused = λ i. same i ∙ s.unused i;
    blank = s.blank;
    map = s.map;
    free = s.free;
    enough = s.enough;
    small = s.small;
    hits = s.hits;
    misses = s.misses;
    refs = s.refs;
  }

  IsStart-hands :
      (m : Machine os.File) (hand next : ℕ)
      → hand ≡ 0
      → next ≡ 0
      → IsStart m
      → IsStart (record m { clock_hand = hand; cur_page = next })
  IsStart-hands m hand next hh hn s = record {
    size = s.size;
    hand = hh;
    next = hn;
    unused = s.unused;
    blank = s.blank;
    map = s.map;
    free = s.free;
    enough = s.enough;
    small = s.small;
    hits = s.hits;
    misses = s.misses;
    refs = s.refs;
  }

  -- The optimal algorithm reads the trace.
  init_fcn_lem :
      (alg : Algorithm) (named : Bool) (addr : ℕ) (ls : List Line) (m : Machine os.File)
      → (alg ≡ opt → named ≡ true)
      → IsStart m
      → Returns (λ _ m'. IsStart m' × Foresees alg (accesses ls) m') (init_fcn alg named addr ls m)
  unfolding init_fcn lru_init opt_init
  init_fcn_lem rand named addr ls m h s = returns (s, tt)
  init_fcn_lem fifo named addr ls m h s = returns (IsStart-hands m m.clock_hand 0 s.hand refl s, tt)
  init_fcn_lem clock named addr ls m h s = returns (IsStart-hands m 0 m.cur_page refl s.next s, tt)
  init_fcn_lem lru named addr ls m h s =
      returns (IsStart-books m _ 0 m.curr_node (λ i. ground arith) s, tt)
  init_fcn_lem opt named addr ls m h s = rw (h refl) (
      returns (
        IsStart-books m _ m.timestamp (trace_pages addr ls) (λ i. ground arith) s,
        accesses-le addr ls,
      ))

  swap_init_run :
      (swapsize : ℕ) (b : Bitmap) (m : Machine os.File)
      → bitmap_create true true swapsize ≡ some (some b)
      → swap_init true true swapsize m ≡ some (tt, record m { swapmap = b })
  unfolding swap_init
  swap_init_run swapsize b m made = rw (made, swap_init) refl

  -- With a swap file that works, memory for the page tables, frames and swap for all pages of the
  -- trace, a simulation
  -- with any of the algorithms runs to its end: no assertion fails, no pointer is null, no loop goes
  -- on for ever. Every access finds a frame with the contents of the page it asks for, and each
  -- has been counted as a reference, and as a hit or a miss. The trace has only addresses at which a
  -- page starts, and for the optimal algorithm it has a file name.
  pub simulate_lem :
      IsReliable os
      → pages ≤ 2 ^ 24
      → 0 < pages
      → 0 < memsize
      → memsize < 2 ^ 20
      → (alg : Algorithm) (named : Bool) (addr swapsize : ℕ) (ls : List Line)
      → (alg ≡ opt → named ≡ true)
      → pages ≤ swapsize
      → swapsize < 2 ^ 27
      → AllPages pages ls
      → (physmem : ℕ → Page) (file : os.File)
      → Returns
          (λ good m.
            (good ≡ replicate (accesses ls) true)
            × (m.hit_count + m.miss_count ≡ accesses ls)
            × (m.ref_count ≡ accesses ls)
            × IsSound os pages m)
          (simulate os alg named addr true true swapsize ls (globals memsize physmem file))
  unfolding simulate init_pagetable replay_trace
  simulate_lem reliable small some_pages some_memory memory alg named addr swapsize ls h enough fits
        all physmem file =
      let (b, made, size, map, free) = bitmap_create-IsValid swapsize (omega arith) in
      let m1 : Machine os.File = record (globals memsize physmem file) {
        swapmap = b;
        present = λ i. if ltb i 4096 then false else false;
      } in
      let s : IsStart m1 = record {
        size = refl;
        hand = refl;
        next = refl;
        unused = λ i. refl;
        blank = λ v. refl;
        map = map;
        free = λ j lt. free j (omega arith);
        enough = omega arith;
        small = omega arith;
        hits = refl;
        misses = refl;
        refs = refl;
      } in
      rw (swap_init_run swapsize b (globals memsize physmem file) made) (
        bind (init_fcn_lem alg named addr ls m1 h s) (λ _ m2 (s2, fore).
          mono
            (replay_from_lem os pages reliable small alg 0 ls m2 (0, some_pages, refl) all
              (IsSound-start m2 some_memory memory s2) fore)
            (λ good m' (right, a). (
              right,
              omega (arith, a.counted, s2.hits, s2.misses),
              omega (arith, a.refs, s2.refs),
              a.sound,
            ))))

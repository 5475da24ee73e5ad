-- ===== src/Paging/Clock.antt =====
-- A3/clock.c: one step of the clock, and what its victim is to be.
pub mod Loop
use csc369_assignments.Prelude.{
  ℕ, zero, suc, ◌+◌, ◌%◌, ◌≤◌, ◌<◌, ◌≡◌, ◌≢◌, refl, sym, ap, ◌∙◌, ◌⊎◌, inl, inr, Bool, true, false,
  Option, none, some, ◌==◌, ltb, if◌then◌else◌, arith, Bool-cases, Option-cases, update,
  update_self, update_ne, eq_of_test, ne_of_test, test_of_ne,
}
use native.Mathlib.Nat.{mod-lt, mod-eq_of_lt, mod_self, mod-add-mod, mod-eq-sub-mod}
use csc369_assignments.Prelude.Count.{count, count-le_self, count-lt, circle}
use csc369_assignments.Prelude.State.{Returns, returns, mono, and_then}
use csc369_assignments.Prelude.Word.{test_bit, clear_bit, test_bit-clear_bit}
use csc369_assignments.Paging.Machine.{Machine, Frame, Pte, pg_ref}
use csc369_assignments.Paging.Policies.{under_hand, advance_hand, clock_loop, clock_evict}
use csc369_assignments.Paging.Invariant.{is_valid, home, Alike}
use csc369_assignments.Paging.Steady.{
  Steady, Steady-refl, Steady-books, Steady-trans, Alike-clear_ref,
}
use csc369_assignments.Paging.Evict.{turn-lt}

module _ {File : Type 0} where
  -- Whether the page in a frame has the reference bit.
  abbrev pub marked : Machine File → ℕ → Bool
  marked m i = elim (m.coremap i).pte [ none ↦ false | some v ↦ test_bit (m.ptes v).frame pg_ref ]

  -- Every frame has a page, which knows it.
  abbrev pub AllOwned : Machine File → Type 0
  AllOwned m =
      (i : ℕ)
      → i < m.memsize
      → (v : ℕ) × ((m.coremap i).pte ≡ some v)
        × (is_valid (m.ptes v) ≡ true)
        × (home (m.ptes v) ≡ i)

  -- The victim `i` lies `d` steps behind the hand; the pages passed had the bit, and the page of the
  -- victim has not, unless the clock came round to where it began.
  pub record IsSecond (m : Machine File) (i : ℕ) (m' : Machine File) : Type 0 where
    pub steps : ℕ
    pub once_round : steps ≤ count m.memsize (marked m)
    pub position : i ≡ (m.clock_hand + steps) % m.memsize
    pub passed : (j : ℕ) → j < steps → marked m ((m.clock_hand + j) % m.memsize) ≡ true
    pub clear : steps < m.memsize → marked m i ≡ false
    pub hand : m'.clock_hand ≡ (i + 1) % m.memsize
    pub steady : Steady 0 m m'

  -- The hand has moved on from the page `v` of its frame and taken the bit off it.
  abbrev pub cleared : Machine File → ℕ → Machine File
  cleared m v = record m {
    ptes = update m.ptes v (record (m.ptes v) { frame = clear_bit (m.ptes v).frame pg_ref });
    clock_hand = (m.clock_hand + 1) % m.memsize;
  }

  abbrev pub moved : Machine File → Machine File
  moved m = record m { clock_hand = (m.clock_hand + 1) % m.memsize }

  pub Steady-moved : (m : Machine File) → 0 < m.memsize → Steady 0 m (moved m)
  Steady-moved m h =
      Steady-books 0 m m.coremap ((m.clock_hand + 1) % m.memsize) m.cur_page m.timestamp m.draws
        m.curr_node (λ i. refl) (λ i. refl) (λ q. turn-lt m.memsize m.clock_hand h) (λ q. q)
        (omega arith)

  pub Steady-cleared : (m : Machine File) (v : ℕ) → 0 < m.memsize → Steady 0 m (cleared m v)
  Steady-cleared m v h =
      let s = Steady-moved m h in
      record {
        memsize = refl;
        physmem = refl;
        present = refl;
        swapmap = refl;
        swapfile = refl;
        hits = refl;
        misses = refl;
        refs = refl;
        used = s.used;
        owned = s.owned;
        alike = Alike-clear_ref m.ptes v;
        hand = s.hand;
        next = s.next;
        nodes = s.nodes;
      }

  module _ (m : Machine File) (v : ℕ) (low : m.clock_hand < m.memsize)
      (owns : (m.coremap m.clock_hand).pte ≡ some v) where
    inside : ltb m.clock_hand m.memsize ≡ true
    inside = ground arith

    nonzero : (m.memsize == 0) ≡ false
    nonzero = ground arith

    hand_run : under_hand m ≡ some (v, m)
    hand_run = rw (inside, owns) refl

    advance_run :
        (p : ℕ → Pte)
        → advance_hand (record m { ptes = p })
          ≡ some (tt, record m { ptes = p; clock_hand = (m.clock_hand + 1) % m.memsize })
    advance_run p = rw nonzero refl

    pub clock_go :
        (fuel : ℕ)
        → test_bit (m.ptes v).frame pg_ref ≡ true
        → clock_loop (suc fuel) m ≡ clock_loop fuel (cleared m v)
    unfolding clock_loop
    clock_go fuel on = rw (hand_run, and_then) (rw (on, nonzero) refl)

    pub clock_stop :
        (fuel : ℕ)
        → test_bit (m.ptes v).frame pg_ref ≡ false
        → clock_loop (suc fuel) m ≡ some (home (m.ptes v), moved m)
    unfolding clock_loop
    clock_stop fuel off = ground (arith, hand_run, nonzero)

    pub marked-cleared_le : (i : ℕ) → marked (cleared m v) i ≡ true → marked m i ≡ true
    marked-cleared_le i h = elim (Option-cases (m.coremap i).pte) [
      | inl nobody ↦ ground (arith, nobody)
      | inr (u, page) ↦ ground (arith, page, test_bit-clear_bit (m.ptes v).frame pg_ref pg_ref)
    ]

    pub marked-cleared_self : marked (cleared m v) m.clock_hand ≡ false
    marked-cleared_self = ground (arith, owns, test_bit-clear_bit (m.ptes v).frame pg_ref pg_ref)

    -- Another frame has another page.
    pub marked-cleared_ne :
        (i : ℕ)
        → AllOwned m
        → home (m.ptes v) ≡ m.clock_hand
        → i < m.memsize
        → i ≢ m.clock_hand
        → marked (cleared m v) i ≡ marked m i
    marked-cleared_ne i all at lt ne =
        let (u, page, _, at') = all i lt in
        let apart : v ≢ u = λ q. ne (sym at' ∙ (ap (λ w. home (m.ptes w)) (sym q) ∙ at)) in
        let differ : (v == u) ≡ false = test_of_ne v u apart in ground (arith, page)

-- ===== src/Paging/Clock/Loop.antt =====
-- A3/clock.c: the loop of `clock_evict` ends, at the first frame without the reference bit.
use csc369_assignments.Prelude.{
  ℕ, zero, suc, ◌+◌, ◌%◌, ◌<◌, ◌≡◌, ◌≢◌, sym, ap, ◌∙◌, inl, inr, true, false, some, arith,
  Bool-cases,
}
use native.Mathlib.Nat.{mod-lt, mod-eq_of_lt, mod-add-mod}
use csc369_assignments.Prelude.Count.{count, count-le_self, count-lt, circle}
use csc369_assignments.Prelude.State.{Returns, returns, mono}
use csc369_assignments.Prelude.Word.{test_bit}
use csc369_assignments.Paging.Machine.{Machine, pg_ref}
use csc369_assignments.Paging.Policies.{clock_loop, clock_evict}
use csc369_assignments.Paging.Invariant.{home}
use csc369_assignments.Paging.Steady.{Steady-trans, Alike-clear_ref}
use csc369_assignments.Paging.Evict.{turn-lt}
use csc369_assignments.Paging.Clock.{
  marked, AllOwned, IsSecond, cleared, moved, Steady-moved, Steady-cleared, clock_go, clock_stop,
  marked-cleared_le, marked-cleared_self, marked-cleared_ne,
}

module _ {File : Type 0} where
  AllOwned-cleared : (m : Machine File) (v : ℕ) → AllOwned m → AllOwned (cleared m v)
  AllOwned-cleared m v all i lt =
      let (u, page, good, at) = all i lt in
      let same = Alike-clear_ref m.ptes v in (u, page, same.valid u ∙ good, same.number u good ∙ at)

  module _ (m : Machine File) (v : ℕ) (low : m.clock_hand < m.memsize) (all : AllOwned m)
      (owns : (m.coremap m.clock_hand).pte ≡ some v) (at : home (m.ptes v) ≡ m.clock_hand) where
    at_start : m.clock_hand ≡ (m.clock_hand + 0) % m.memsize
    at_start = sym (mod-eq_of_lt {n = m.clock_hand + 0} {m = m.memsize} (omega arith) ∙ omega arith)

    stops_here : test_bit (m.ptes v).frame pg_ref ≡ false → IsSecond m (home (m.ptes v)) (moved m)
    stops_here off = record {
      steps = 0;
      once_round = omega arith;
      position = at ∙ at_start;
      passed = λ j h. absurd (omega arith);
      clear = λ h. rw at (ground (arith, owns));
      hand = ap (λ i. (i + 1) % m.memsize) (sym at);
      steady = Steady-moved m (omega arith);
    }

    fewer :
        test_bit (m.ptes v).frame pg_ref ≡ true
        → count m.memsize (marked (cleared m v)) < count m.memsize (marked m)
    fewer on =
        count-lt m.memsize m.clock_hand (marked m) (marked (cleared m v))
          (marked-cleared_le m v low owns) low (ground (arith, owns))
          (marked-cleared_self m v low owns)

    shift :
        (j : ℕ)
        → ((m.clock_hand + 1) % m.memsize + j) % m.memsize ≡ (m.clock_hand + suc j) % m.memsize
    shift j =
        mod-add-mod (m.clock_hand + 1) m.memsize j
        ∙ ap (λ k. k % m.memsize) {x = m.clock_hand + 1 + j} {y = m.clock_hand + suc j}
            (omega arith)

    passed_too :
        test_bit (m.ptes v).frame pg_ref ≡ true
        → (i : ℕ) (m' : Machine File) (s : IsSecond (cleared m v) i m') → (j : ℕ) → j < suc s.steps
        → marked m ((m.clock_hand + j) % m.memsize) ≡ true
    passed_too on i m' s zero h = ap (marked m) (sym at_start) ∙ ground (arith, owns)
    passed_too on i m' s (suc j) h =
        marked-cleared_le m v low owns ((m.clock_hand + suc j) % m.memsize)
          (ap (marked (cleared m v)) (sym (shift j)) ∙ s.passed j (omega arith))

    goes_on :
        test_bit (m.ptes v).frame pg_ref ≡ true
        → (i : ℕ) (m' : Machine File) → IsSecond (cleared m v) i m'
        → IsSecond m i m'
    goes_on on i m' s =
        let le = count-le_self m.memsize (marked m) in
        let lt = fewer on in
        record {
          steps = suc s.steps;
          once_round = omega (arith, s.once_round);
          position = s.position ∙ shift s.steps;
          passed = passed_too on i m' s;
          clear = λ h.
              let back : i ≢ m.clock_hand = λ q.
                circle m.memsize m.clock_hand (suc s.steps) low (omega arith) h
                  (sym (shift s.steps) ∙ (sym s.position ∙ q)) in
              sym (
                marked-cleared_ne m v low owns i all at
                  (rw s.position (
                    mod-lt ((m.clock_hand + 1) % m.memsize + s.steps) {m = m.memsize}
                      (omega arith)))
                  back)
              ∙ s.clear (omega arith);
          hand = s.hand;
          steady = Steady-trans m (cleared m v) m' (Steady-cleared m v (omega arith)) s.steady;
        }

  clock_loop_lem :
      (fuel : ℕ) (m : Machine File)
      → m.clock_hand < m.memsize
      → AllOwned m
      → count m.memsize (marked m) < fuel
      → Returns (IsSecond m) (clock_loop fuel m)
  clock_loop_lem zero m low all enough = absurd (omega arith)
  clock_loop_lem (suc fuel) m low all enough =
      let (v, owns, good, at) = all m.clock_hand low in
      elim (Bool-cases (test_bit (m.ptes v).frame pg_ref)) [
        | inr off ↦
            rw (clock_stop m v low owns fuel off) (returns (stops_here m v low all owns at off))
        | inl on ↦
            let turn = turn-lt m.memsize m.clock_hand (omega arith) in
            let less = fewer m v low all owns at on in
            rw (clock_go m v low owns fuel on) (
              mono (clock_loop_lem fuel (cleared m v) turn (AllOwned-cleared m v all) (omega arith))
                (goes_on m v low all owns at on))
      ]

  -- When every frame has a page, `clock_evict` ends: it stops at the first frame, in the circle from
  -- the hand on, whose page has no PG_REF, or at the frame of the hand if all have it; the pages
  -- passed had the bit, and the hand is left behind the victim.
  pub clock_evict-IsSecond :
      (m : Machine File)
      → m.clock_hand < m.memsize
      → AllOwned m
      → Returns (IsSecond m) (clock_evict m)
  unfolding clock_evict
  clock_evict-IsSecond m low all =
      let le = count-le_self m.memsize (marked m) in
      clock_loop_lem (m.memsize + 1) m low all (omega arith)

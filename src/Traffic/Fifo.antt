-- ===== src/Traffic/Fifo.antt =====
-- A2/cars.c: whatever the order in which the threads of the lanes take their turns, the cars of a
-- lane cross in the order of its list.
use csc369_assignments.Prelude.{
  ℕ, ◌+◌, ◌<◌, ◌≡◌, ◌≢◌, refl, sym, ap, ◌∙◌, inl, inr, true, Option, none, some, List, [], ◌∷◌,
  ◌++◌, ltb, ◌==◌, if◌then◌else◌, update, arith, Bool-cases, eq_of_test, ne_of_test,
}
use mathlib.Core.Path.{subst}
use csc369_assignments.Prelude.State.{Returns, returns, outcome}
use csc369_assignments.Traffic.Lane.{Car, Lane, fill, arrive_turn, cross_front}
use csc369_assignments.Traffic.Ring.{pending, Fed, Filled, fill_lem}
use csc369_assignments.Traffic.Crossing.{
  InOrder, front, cross_run, after_self, after_other, after-InOrder, pending-gone,
}

-- A run of the threads in which the cars `crossed` have crossed from lane `i`, the first of them
-- first: the arriving threads take turns, and the crossing threads take cars out of buffers that are
-- not empty.
pub data Run (i : ℕ) : (ℕ → Lane) → List Car → (ℕ → Lane) → Type 0 where
  stay : {s : ℕ → Lane} → Run i s [] s
  arrives :
      {s s' s'' : ℕ → Lane} {crossed : List Car} (j : ℕ)
      → j < 4
      → arrive_turn j s ≡ some (tt, s')
      → Run i s' crossed s''
      → Run i s crossed s''
  crosses :
      {s s' s'' : ℕ → Lane} {crossed : List Car} {c : Car} (j : ℕ)
      → j < 4
      → 0 < (s j).in_buf
      → cross_front j s ≡ some (c, s')
      → Run i s' crossed s''
      → Run i s (if i == j then c ∷ crossed else crossed) s''

-- What one turn of an arriving thread does.
pub record IsTurn (s s' : ℕ → Lane) : Type 0 where
  pub order : InOrder s'
  pub same : (k : ℕ) → pending (s' k) ≡ pending (s k)

module _ (j : ℕ) (s : ℕ → Lane) (lt : j < 4) (order : InOrder s) where
  IsTurn-Fed : (l : Lane) → Fed (s j) l → IsTurn s (update s j l)
  IsTurn-Fed l fed = record {
    order = λ k low. elim (Bool-cases (j == k)) [
      | inl same ↦ let (_, all) = order j lt in rw same (fed.ring, rw fed.same all)
      | inr other ↦ rw other (order k low)
    ];
    same = λ k. elim (Bool-cases (j == k)) [
      | inl same ↦ rw same (subst (λ i. pending l ≡ pending (s i)) (eq_of_test j k same) fed.same)
      | inr other ↦ rw other refl
    ];
  }

  pub IsTurn-of :
      (r : Option (Unit {0} × Lane))
      → Returns (Filled (s j)) r
      → Returns
          (λ _ s'. IsTurn s s')
          (elim r [ none ↦ none | some (_, l) ↦ some (tt, update s j l) ])
  IsTurn-of _ (returns {s = l} (fed, _)) = returns (IsTurn-Fed l fed)

  -- A turn of an arriving thread returns.
  arrive_turn_lem : Returns (λ _ s'. IsTurn s s') (arrive_turn j s)
  unfolding arrive_turn
  arrive_turn_lem =
      let (ok, _) = order j lt in
      let lane : ltb j 4 ≡ true = ground arith in
      let run =
        IsTurn-of (fill ((s j).inc + 1) (s j)) (fill_lem ((s j).inc + 1) (s j) ok (omega arith)) in
      rw lane run

-- What it is that the first car of lane `j` has crossed.
pub record IsCrossed (j : ℕ) (s : ℕ → Lane) (c : Car) (s' : ℕ → Lane) : Type 0 where
  pub order : InOrder s'
  pub first : pending (s j) ≡ c ∷ pending (s' j)
  pub others : (k : ℕ) → j ≢ k → pending (s' k) ≡ pending (s k)
  pub left : (s' j).in_buf + 1 ≡ (s j).in_buf
  pub waits : (s' j).inc ≡ (s j).inc

-- The first car of a lane crosses: no pointer on the way is null.
pub cross_front_lem :
    (j : ℕ) (s : ℕ → Lane)
    → j < 4
    → InOrder s
    → 0 < (s j).in_buf
    → Returns (IsCrossed j s) (cross_front j s)
cross_front_lem j s lt order busy =
    let (ok, _) = order j lt in
    rw (cross_run j s lt order busy) (
      returns (record {
        order = after-InOrder j s lt order busy;
        first =
            pending-gone (s j) ok busy
            ∙ ap (λ l. front (s j) ∷ pending l) (sym (after_self j s lt order busy));
        others = λ k ne. ap pending (after_other j s lt order busy k ne);
        left = omega (arith, ap (λ l. l.in_buf) (after_self j s lt order busy));
        waits = ap (λ l. l.inc) (after_self j s lt order busy);
      }))

-- The cars of a lane cross in the order in which they stand in its buffer and then in its list,
-- and none is lost: at every moment of a run those that have crossed and those that have still to
-- cross make up the cars that were there. Every buffer stays a ring, and every car keeps its way.
pub Run-keeps_order :
    (i : ℕ) (s s' : ℕ → Lane) (crossed : List Car)
    → i < 4
    → InOrder s
    → Run i s crossed s'
    → (pending (s i) ≡ crossed ++ pending (s' i)) × InOrder s'
Run-keeps_order i s _ _ lt order stay = (refl, order)
Run-keeps_order i s s'' crossed lt order (arrives {s'} j low e run) =
    let turn = outcome (arrive_turn_lem j s low order) e in
    let (rest, kept) = Run-keeps_order i s' s'' crossed lt turn.order run in
    (sym (turn.same i) ∙ rest, kept)
Run-keeps_order i s s'' _ lt order (crosses {s'} {crossed} {c} j low busy e run) =
    let step = outcome (cross_front_lem j s low order busy) e in
    let (rest, kept) = Run-keeps_order i s' s'' crossed lt step.order run in
    elim (Bool-cases (i == j)) [
      | inl same ↦
          let at : i ≡ j = eq_of_test i j same in
          let mine : pending (s i) ≡ c ∷ pending (s' i) =
            subst (λ k. pending (s k) ≡ c ∷ pending (s' k)) (sym at) step.first in
          rw same (mine ∙ ap (λ l. c ∷ l) rest, kept)
      | inr other ↦
          let apart : j ≢ i = λ q. ne_of_test i j other (sym q) in
          rw other (sym (step.others i apart) ∙ rest, kept)
    ]

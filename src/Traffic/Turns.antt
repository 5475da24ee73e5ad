-- ===== src/Traffic/Turns.antt =====
-- A2/cars.c: the turns of the crossing thread of a lane.
use csc369_assignments.Prelude.{
  ℕ, zero, suc, ◌+◌, ◌≤◌, ◌<◌, ◌≡◌, ◌≢◌, refl, ap, ◌∙◌, ◌⊎◌, inl, inr, Bool, true, false, not, ◌&&◌,
  ◌==◌, Option, none, some, length, length-append, ◌%◌, ltb, update, update_self, arith, Bool-cases,
}
use csc369_assignments.Prelude.State.{Returns, returns, bind, mono}
use csc369_assignments.Traffic.Lane.{Car, Lane, fill, arrive_turn, drain, cross_turn}
use csc369_assignments.Traffic.Ring.{queue, waiting, pending, IsRing, Filled, fill_lem}
use csc369_assignments.Traffic.Crossing.{InOrder}
use csc369_assignments.Traffic.Fifo.{cross_front_lem}

-- The buffer of lane `i` has been emptied, other lanes have kept their cars.
pub record IsDrained (i : ℕ) (s s' : ℕ → Lane) : Type 0 where
  pub order : InOrder s'
  pub empty : (s' i).in_buf ≡ 0
  pub others : (k : ℕ) → i ≢ k → pending (s' k) ≡ pending (s k)
  pub to_come : (s' i).inc ≡ (s i).inc

module _ (fuel i : ℕ) (s : ℕ → Lane) where
  drain_stop : ltb 0 (s i).in_buf ≡ false → drain (suc fuel) i s ≡ some (tt, s)
  unfolding drain
  drain_stop e = rw e refl

drain_lem :
    (fuel i : ℕ) (s : ℕ → Lane)
    → i < 4
    → InOrder s
    → (s i).in_buf < fuel
    → Returns (λ _ s'. IsDrained i s s') (drain fuel i s)
unfolding drain
drain_lem zero i s lt order enough = absurd (omega arith)
drain_lem (suc fuel) i s lt order enough = elim (Bool-cases (ltb 0 (s i).in_buf)) [
  | inr none_left ↦ rw none_left (
      returns
        (record { order = order; empty = ground arith; others = λ k ne. refl; to_come = refl }))
  | inl busy ↦ rw busy (
      bind (cross_front_lem i s lt order (ground arith)) (λ c s1 x.
        mono (drain_lem fuel i s1 lt x.order (omega (arith, x.left))) (λ _ s' d. record {
          order = d.order;
          empty = d.empty;
          others = λ k ne. d.others k ne ∙ x.others k ne;
          to_come = d.to_come ∙ x.waits;
        })))
]

-- What a turn that goes on to the inner loop leaves: the thread waits while cars are still to
-- arrive, and where none are it waits for an empty buffer, and returns behind a full one.
pub record IsCrossTurn (i : ℕ) (s : ℕ → Lane) (ended : Bool) (s' : ℕ → Lane) : Type 0 where
  pub drained : IsDrained i s s'
  pub waits : 0 < (s i).inc → ended ≡ false
  pub starves : (s i).in_buf ≡ 0 → ended ≡ false
  pub returns_last : (s i).inc ≡ 0 → 0 < (s i).in_buf → ended ≡ true

-- A turn of the crossing thread ends. As long as cars are still to arrive, and in every turn in
-- which it comes back from its wait, the thread takes every car out of the buffer, be there cars to
-- arrive or not; the cars of the other lanes stay where they are. It then waits if cars are
-- still to arrive, or if the buffer was empty, and returns if it has taken out the last car.
pub cross_turn_lem :
    (woken : Bool) (i : ℕ) (s : ℕ → Lane)
    → i < 4
    → InOrder s
    → (woken ≡ true) ⊎ (0 < (s i).inc)
    → Returns (IsCrossTurn i s) (cross_turn woken i s)
unfolding cross_turn
cross_turn_lem woken i s lt order more =
    let lane : ltb i 4 ≡ true = ground arith in
    let goes_on : not woken && not (ltb 0 (s i).inc) ≡ false = ground arith in
    elim (Bool-cases ((s i).in_buf == 0)) [
      | inl none_in ↦
          rw (lane, goes_on, none_in)
            (returns (record {
              drained = record {
                order = order;
                empty = ground arith;
                others = λ k ne. refl;
                to_come = refl;
              };
              waits = λ h. refl;
              starves = λ h. refl;
              returns_last = λ h busy. absurd (ground arith);
            }))
      | inr some_in ↦
          rw (lane, goes_on, some_in)
            (bind (drain_lem ((s i).in_buf + 1) i s lt order (omega arith)) (λ _ s' d.
              returns (record {
                drained = d;
                waits = λ h. ground (arith, d.to_come);
                starves = λ h. absurd (ground arith);
                returns_last = λ h busy. ground (arith, d.to_come);
              })))
    ]

length-queue : (buffer : ℕ → Car) (capacity n h : ℕ) → length (queue buffer capacity n h) ≡ n
unfolding queue
length-queue buffer capacity zero h = refl
length-queue buffer capacity (suc n) h =
    ap suc (length-queue buffer capacity n ((h + 1) % capacity))

length-pending : (l : Lane) → IsRing l → length (pending l) ≡ l.in_buf + l.inc
length-pending l ok = omega (
  arith,
  length-append (waiting l) l.in_cars,
  length-queue l.buffer l.capacity l.in_buf l.head,
  ok.counted,
)

module _ (i : ℕ) (s : ℕ → Lane) (lt : i < 4) (few : length (pending (s i)) ≤ (s i).capacity) where
  -- No car is left in the list of a lane that has room for all.
  none_to_come : (l : Lane) → Filled (s i) tt l → l.inc ≡ 0
  none_to_come l (fed, inr none_left) = none_left
  none_to_come l (fed, inl full) =
      omega (arith, length-pending l fed.ring, ap length fed.same, fed.capacity)

  abbrev Abandoned : (ℕ → Lane) → Type 0
  Abandoned s' = (cross_turn false i s' ≡ some (true, s')) × (pending (s' i) ≡ pending (s i))

  Abandoned-Filled : (l : Lane) → Filled (s i) tt l → Abandoned (update s i l)
  unfolding cross_turn
  Abandoned-Filled l filled =
      let none_left = none_to_come l filled in
      let (fed, _) = filled in
      let lane : ltb i 4 ≡ true = ground arith in
      let here : update s i l i ≡ l = update_self s i l in
      let stops : ltb 0 (update s i l i).inc ≡ false = rw here (ground arith) in
      (rw (lane, stops) refl, rw here fed.same)

  Abandoned-of :
      (r : Option (Unit {0} × Lane))
      → Returns (Filled (s i)) r
      → Returns
          (λ _ s'. Abandoned s')
          (elim r [ none ↦ none | some (_, l) ↦ some (tt, update s i l) ])
  Abandoned-of _ (returns {s = l} filled) = returns (Abandoned-Filled l filled)

  -- If the buffer of a lane has room for all its cars and the arriving thread has its turn before
  -- the crossing thread gets the lock for the first time, then the crossing thread finds no car to
  -- arrive, does not enter its loop, and returns: every car stays in the buffer and none of the lane
  -- ever crosses.
  pub arrive_turn-abandons : InOrder s → Returns (λ _ s'. Abandoned s') (arrive_turn i s)
  unfolding arrive_turn
  arrive_turn-abandons order =
      let (ok, _) = order i lt in
      let lane : ltb i 4 ≡ true = ground arith in
      let run =
        Abandoned-of (fill ((s i).inc + 1) (s i))
          (fill_lem ((s i).inc + 1) (s i) ok (omega arith)) in
      rw lane run

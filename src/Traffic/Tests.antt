-- ===== src/Traffic/Tests.antt =====
-- A2: the theorems about the intersection at concrete lanes.
use csc369_assignments.Prelude.{
  ℕ, ◌≡◌, refl, ap, inr, true, false, some, List, [], ◌∷◌, ◌++◌, update, arith,
}
use csc369_assignments.Prelude.Int.{ℤ, pos}
use csc369_assignments.Prelude.State.{Returns}
use csc369_assignments.Traffic.Path.{compute_path}
use csc369_assignments.Traffic.Order.{IsPath, compute_path-IsPath}
use csc369_assignments.Traffic.Path.{insert_quads, quads}
use csc369_assignments.Traffic.Locks.{Crossing, parked, Reached, begins, enters, Exclusive, CanMove}
use csc369_assignments.Traffic.Locks.Deadlock.{Reached-never_stuck}
use csc369_assignments.Traffic.Lane.{Car, Lane, arrive_turn, cross_front, cross_turn}
use csc369_assignments.Traffic.Ring.{queue, pending, IsRing}
use csc369_assignments.Traffic.Crossing.{InOrder}
use csc369_assignments.Traffic.Fifo.{stay, crosses, Run-keeps_order}
use csc369_assignments.Traffic.Turns.{IsCrossTurn, cross_turn_lem, arrive_turn-abandons}

compute_path-IsPath_example : (path : List ℤ) × (compute_path 2 1 ≡ some path) × IsPath 1 path
compute_path-IsPath_example = compute_path-IsPath 2 1 (omega arith) (omega arith)

-- A car from the west to the north is about to lock its quadrants.
abbrev one_thread : ℕ → Crossing
one_thread = update (λ k. parked) 1 (record { taken = []; wanted = 0 ∷ 2 ∷ 3 ∷ [] })

one_thread-Reached : Reached one_thread
unfolding compute_path insert_quads quads
one_thread-Reached =
    enters (λ k. parked) 1 1 0 (insert_quads 1 3 4 0) begins (omega arith) refl (omega arith)
      (omega arith) refl

Reached-never_stuck_example : Exclusive one_thread × CanMove one_thread
Reached-never_stuck_example =
    Reached-never_stuck one_thread one_thread-Reached 1 (omega arith)
      (λ e. let bad : 0 ∷ 2 ∷ 3 ∷ [] ≡ [] = ap (λ c. c.wanted) e in cc)

abbrev car_7 : Car
car_7 = record { id = pos 7; in_dir = 1; out_dir = 3 }

abbrev car_8 : Car
car_8 = record { id = pos 8; in_dir = 1; out_dir = 0 }

-- Every lane has one car to arrive, and one in its buffer.
abbrev busy_lane : Lane
busy_lane = record {
  in_cars = car_8 ∷ [];
  out_cars = [];
  inc = 1;
  passed = 0;
  buffer = λ k. car_7;
  head = 0;
  tail = 1;
  capacity = 10;
  in_buf = 1;
}

busy_lane-IsRing : IsRing busy_lane
busy_lane-IsRing = record {
  some_room = omega arith;
  head_in = omega arith;
  fits = omega arith;
  tail_at = refl;
  counted = refl;
}

busy-InOrder : InOrder (λ i. busy_lane)
unfolding queue
busy-InOrder i lt = (busy_lane-IsRing, (omega arith, omega arith, (omega arith, omega arith, tt)))

cross_turn_lem_example :
    Returns (IsCrossTurn 1 (λ i. busy_lane)) (cross_turn false 1 (λ i. busy_lane))
cross_turn_lem_example =
    cross_turn_lem false 1 (λ i. busy_lane) (omega arith) busy-InOrder (inr (omega arith))

arrive_turn-abandons_example :
    Returns
      (λ _ s'. (cross_turn false 1 s' ≡ some (true, s')) × (pending (s' 1) ≡ car_7 ∷ car_8 ∷ []))
      (arrive_turn 1 (λ i. busy_lane))
unfolding queue
arrive_turn-abandons_example =
    arrive_turn-abandons 1 (λ i. busy_lane) (omega arith) (omega arith) busy-InOrder

-- One car crosses.
abbrev later : ℕ → Lane
later =
    update (update (λ i. busy_lane) 3 (record busy_lane { out_cars = car_7 ∷ [] })) 1
      (record busy_lane { head = 1; in_buf = 0 })

one_crosses : cross_front 1 (λ i. busy_lane) ≡ some (car_7, later)
unfolding cross_front compute_path
one_crosses = refl

Run-keeps_order_example : (pending busy_lane ≡ (car_7 ∷ []) ++ pending (later 1)) × InOrder later
Run-keeps_order_example =
    Run-keeps_order 1 (λ i. busy_lane) later (car_7 ∷ []) (omega arith) busy-InOrder
      (crosses 1 (omega arith) (omega arith) one_crosses stay)

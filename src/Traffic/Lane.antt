-- ===== src/Traffic/Lane.antt =====
-- A2/traffic.h, A2/cars.c: lanes, the cars that arrive in them and the cars that cross.
use csc369_assignments.Prelude.{
  ℕ, zero, suc, ◌+◌, ◌-◌, ◌%◌, ◌&&◌, not, ◌==◌, none, some, List, [], ◌∷◌, Bool, true, false, ltb,
  if◌then◌else◌, update,
}
use csc369_assignments.Prelude.Int.{ℤ}
use csc369_assignments.Prelude.State.{Cmd, pure, deref, and_then, ◌>>=◌, ◌>>◌}
use csc369_assignments.Traffic.Path.{compute_path}

-- `struct car`. Its link is the tail of the list that it stands in; the one that `car_arrive` sets
-- in a buffered car is read by nothing.
pub record Car : Type 0 where
  pub id : ℤ
  pub in_dir : ℕ
  pub out_dir : ℕ

-- `struct lane`, but for the lock and the condition variables.
pub record Lane : Type 0 where
  pub in_cars : List Car
  pub out_cars : List Car
  pub inc : ℕ
  pub passed : ℕ
  pub buffer : ℕ → Car
  pub head : ℕ
  pub tail : ℕ
  pub capacity : ℕ
  pub in_buf : ℕ

abbrev pub lane_length : ℕ
lane_length = 10

-- `isection.lanes[i]`
abbrev pub lane_at : ℕ → Cmd (ℕ → Lane) Lane
lane_at i s = if ltb i 4 then some (s i, s) else none

abbrev pub put_lane : ℕ → Lane → Cmd (ℕ → Lane) (Unit {0})
put_lane i l s = if ltb i 4 then some (tt, update s i l) else none

-- A lane once `init_intersection` has set it, with a new buffer of any contents.
abbrev pub empty_lane : (ℕ → Car) → Lane
empty_lane buffer = record {
  in_cars = [];
  out_cars = [];
  inc = 0;
  passed = 0;
  buffer = buffer;
  head = 0;
  tail = 0;
  capacity = lane_length;
  in_buf = 0;
}

-- `init_intersection`
unfoldable pub init_intersection : (ℕ → ℕ → Car) → Cmd (ℕ → Lane) (Unit {0})
init_intersection buffers s = some (tt, λ i. if ltb i 4 then empty_lane (buffers i) else s i)

-- `parse_schedule`, on the lines of the file that have three numbers.
unfoldable pub parse_schedule : List Car → Cmd (ℕ → Lane) (Unit {0})
parse_schedule [] = pure tt
parse_schedule (cur_car ∷ rest) = do
  cur_lane ← lane_at cur_car.in_dir
  put_lane cur_car.in_dir
      (record cur_lane { in_cars = cur_car ∷ cur_lane.in_cars; inc = cur_lane.inc + 1 })
  parse_schedule rest

-- The body of the inner loop of `car_arrive`.
unfoldable pub admit : Cmd Lane (Unit {0})
admit l = elim l.in_cars [
  | [] ↦ none
  | incoming_car ∷ rest ↦
      if ltb l.tail l.capacity
      then some (
        tt,
        record l {
          in_cars = rest;
          buffer = update l.buffer l.tail incoming_car;
          tail = (l.tail + 1) % l.capacity;
          inc = l.inc - 1;
          in_buf = l.in_buf + 1;
        },
      )
      else none
]

-- The inner loop of `car_arrive`, on fuel.
unfoldable pub fill : ℕ → Cmd Lane (Unit {0})
fill zero l = none
fill (suc fuel) l =
    let rest = fill fuel in
    if ltb l.in_buf l.capacity && ltb 0 l.inc then and_then (admit l) (λ _. rest) else some (tt, l)

-- A turn of the outer loop of `car_arrive`, when there is room.
unfoldable pub arrive_turn : ℕ → Cmd (ℕ → Lane) (Unit {0})
arrive_turn i s =
    if ltb i 4
    then elim (fill ((s i).inc + 1) (s i)) [ none ↦ none | some (_, l) ↦ some (tt, update s i l) ]
    else none

-- `buffer[i]`
abbrev pub slot : Lane → ℕ → Cmd (ℕ → Lane) Car
slot l i s = if ltb i l.capacity then some (l.buffer i, s) else none

-- The body of the inner loop of `car_cross`, with the quadrants of the path locked; the result is
-- the car that is printed.
unfoldable pub cross_front : ℕ → Cmd (ℕ → Lane) Car
cross_front i = do
  l ← lane_at i
  crossing_car ← slot l l.head
  path ← deref (compute_path crossing_car.in_dir crossing_car.out_dir)
  out_lane ← lane_at crossing_car.out_dir
  put_lane crossing_car.out_dir (record out_lane { out_cars = crossing_car ∷ out_lane.out_cars })
  l' ← lane_at i
  put_lane i (record l' { head = (l'.head + 1) % l'.capacity; in_buf = l'.in_buf - 1 })
  pure crossing_car

-- The inner loop of `car_cross`, on fuel.
unfoldable pub drain : ℕ → ℕ → Cmd (ℕ → Lane) (Unit {0})
drain zero i s = none
drain (suc fuel) i s =
    let rest = drain fuel i in
    if ltb 0 (s i).in_buf then and_then (cross_front i s) (λ _. rest) else some (tt, s)

-- A turn of `car_cross`: from where it gets the lock of its lane for the first time, or comes back
-- from `pthread_cond_wait` (`woken`, where it does not look at the cars to arrive before it goes on),
-- up to where it waits (`false`) or returns (`true`). Behind the inner loop the buffer is empty, so
-- that the thread waits again if cars are still to arrive.
unfoldable pub cross_turn : Bool → ℕ → Cmd (ℕ → Lane) Bool
cross_turn woken i s =
    if ltb i 4
    then (if not woken && not (ltb 0 (s i).inc)
        then some (true, s)
        else if (s i).in_buf == 0
        then some (false, s)
        else and_then (drain ((s i).in_buf + 1) i s) (λ _ s'. some (not (ltb 0 (s' i).inc), s')))
    else none

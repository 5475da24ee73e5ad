-- ===== src/Traffic/Ring.antt =====
-- A2/cars.c: the buffer of a lane is a queue.
use csc369_assignments.Prelude.{
  ℕ, zero, suc, ◌+◌, ◌-◌, ◌%◌, ◌≤◌, ◌<◌, ◌≡◌, ◌≢◌, refl, ap, ◌∙◌, ◌⊎◌, inl, inr, true, false, ◌&&◌,
  some, List, [], ◌∷◌, ◌++◌, length, ltb, update, update_self, update_ne, arith, Bool-cases,
  List-cases,
}
use native.Mathlib.Nat.{mod-lt, mod-add-mod, mod-eq_of_lt}
use csc369_assignments.Prelude.Count.{circle}
use csc369_assignments.Prelude.State.{Returns, returns, mono}
use csc369_assignments.Traffic.Lane.{Car, Lane, admit, fill}

-- The `n` cars in the buffer from slot `h` on.
unfoldable pub queue : (ℕ → Car) → ℕ → ℕ → ℕ → List Car
queue buffer capacity zero h = []
queue buffer capacity (suc n) h = buffer h ∷ queue buffer capacity n ((h + 1) % capacity)

abbrev pub waiting : Lane → List Car
waiting l = queue l.buffer l.capacity l.in_buf l.head

-- All cars that have still to cross, in the order in which they arrive.
abbrev pub pending : Lane → List Car
pending l = waiting l ++ l.in_cars

pub record IsRing (l : Lane) : Type 0 where
  pub some_room : 0 < l.capacity
  pub head_in : l.head < l.capacity
  pub fits : l.in_buf ≤ l.capacity
  pub tail_at : l.tail ≡ (l.head + l.in_buf) % l.capacity
  pub counted : l.inc ≡ length l.in_cars

pub step_on : (n h d : ℕ) → ((h + 1) % n + d) % n ≡ (h + suc d) % n
step_on n h d =
    mod-add-mod (h + 1) n d ∙ ap (λ k. k % n) {x = h + 1 + d} {y = h + suc d} (omega arith)

-- A write behind the cars of the queue does not change them.
queue-update :
    (buffer : ℕ → Car) (c : Car) (capacity n h e : ℕ)
    → h < capacity
    → n ≤ e
    → e < capacity
    → queue (update buffer ((h + e) % capacity) c) capacity n h ≡ queue buffer capacity n h
unfolding queue
queue-update buffer c capacity zero h e low le lt = refl
queue-update buffer c capacity (suc n) h zero low le lt = absurd (omega arith)
queue-update buffer c capacity (suc n) h (suc e) low le lt =
    let apart : (h + suc e) % capacity ≢ h = circle capacity h (suc e) low (omega arith) lt in
    let rest =
      queue-update buffer c capacity n ((h + 1) % capacity) e
        (mod-lt (h + 1) {m = capacity} (omega arith)) (omega arith) (omega arith) in
    let rest' = rw (step_on capacity h e) at rest in
    rw (update_ne buffer ((h + suc e) % capacity) c h apart, rest') refl

-- A longer queue has one more car at its end.
queue-suc :
    (buffer : ℕ → Car) (capacity n h : ℕ)
    → h < capacity
    → queue buffer capacity (suc n) h
      ≡ queue buffer capacity n h ++ (buffer ((h + n) % capacity) ∷ [])
unfolding queue
queue-suc buffer capacity zero h low =
    let e : (h + 0) % capacity ≡ h =
      ap (λ k. k % capacity) {x = h + 0} {y = h} (omega arith) ∙ mod-eq_of_lt low in
    rw e refl
queue-suc buffer capacity (suc n) h low =
    let rest =
      queue-suc buffer capacity n ((h + 1) % capacity)
        (mod-lt (h + 1) {m = capacity} (omega arith)) in
    let rest' = rw (step_on capacity h n) at rest in ap (λ l. buffer h ∷ l) rest'

pub append_one :
    (xs : List Car) (c : Car) (rest : List Car) → (xs ++ (c ∷ [])) ++ rest ≡ xs ++ (c ∷ rest)
append_one [] c rest = refl
append_one (x ∷ xs) c rest = ap (λ l. x ∷ l) (append_one xs c rest)

-- What a turn of `car_arrive` leaves alone.
pub record Fed (l l' : Lane) : Type 0 where
  pub ring : IsRing l'
  pub same : pending l' ≡ pending l
  pub capacity : l'.capacity ≡ l.capacity
  pub out_cars : l'.out_cars ≡ l.out_cars
  pub head : l'.head ≡ l.head

-- The lane with the car `c` in its buffer.
abbrev admitted : Lane → Car → List Car → Lane
admitted l c rest = record l {
  in_cars = rest;
  buffer = update l.buffer l.tail c;
  tail = (l.tail + 1) % l.capacity;
  inc = l.inc - 1;
  in_buf = l.in_buf + 1;
}

module _ (l : Lane) (ok : IsRing l) (room : l.in_buf < l.capacity) (c : Car) (rest : List Car)
    (e : l.in_cars ≡ c ∷ rest) where
  admit_run : admit l ≡ some (tt, admitted l c rest)
  unfolding admit
  admit_run =
      let low : l.tail < l.capacity =
        rw ok.tail_at (mod-lt (l.head + l.in_buf) {m = l.capacity} ok.some_room) in
      let inside : ltb l.tail l.capacity ≡ true = ground arith in rw (e, inside) refl

  pending-admitted : pending (admitted l c rest) ≡ pending l
  pending-admitted =
      let buffer = update l.buffer l.tail c in
      let more : l.in_buf + 1 ≡ suc l.in_buf = omega arith in
      let longer = queue-suc buffer l.capacity l.in_buf l.head ok.head_in in
      let kept : queue buffer l.capacity l.in_buf l.head ≡ waiting l = rw ok.tail_at (
        queue-update l.buffer c l.capacity l.in_buf l.head l.in_buf ok.head_in (omega arith)
          room) in
      let mine : buffer ((l.head + l.in_buf) % l.capacity) ≡ c =
        rw ok.tail_at (update_self l.buffer ((l.head + l.in_buf) % l.capacity) c) in
      rw (more, longer, kept, mine, e) (append_one (waiting l) c rest)

  Fed-admitted : Fed l (admitted l c rest)
  Fed-admitted = record {
    ring = record {
      some_room = ok.some_room;
      head_in = ok.head_in;
      fits = omega arith;
      tail_at =
          ap (λ t. (t + 1) % l.capacity) ok.tail_at
          ∙ (mod-add-mod (l.head + l.in_buf) l.capacity 1
              ∙ ap (λ k. k % l.capacity) {x = l.head + l.in_buf + 1} {y = l.head + (l.in_buf + 1)}
                  (omega arith));
      counted = omega (arith, ok.counted, ap length e);
    };
    same = pending-admitted;
    capacity = refl;
    out_cars = refl;
    head = refl;
  }

Fed-refl : (l : Lane) → IsRing l → Fed l l
Fed-refl l ok = record { ring = ok; same = refl; capacity = refl; out_cars = refl; head = refl }

Fed-trans : (l m r : Lane) → Fed l m → Fed m r → Fed l r
Fed-trans l m r a b = record {
  ring = b.ring;
  same = b.same ∙ a.same;
  capacity = b.capacity ∙ a.capacity;
  out_cars = b.out_cars ∙ a.out_cars;
  head = b.head ∙ a.head;
}

abbrev pub Filled : Lane → Unit {0} → Lane → Type 0
Filled l _ l' = Fed l l' × ((l'.in_buf ≡ l'.capacity) ⊎ (l'.inc ≡ 0))

module _ (fuel : ℕ) (l : Lane) where
  fill_stop : (ltb l.in_buf l.capacity && ltb 0 l.inc) ≡ false → fill (suc fuel) l ≡ some (tt, l)
  unfolding fill
  fill_stop e = rw e refl

  fill_go :
      (l' : Lane)
      → (ltb l.in_buf l.capacity && ltb 0 l.inc) ≡ true
      → admit l ≡ some (tt, l')
      → fill (suc fuel) l ≡ fill fuel l'
  unfolding fill
  fill_go l' e a = rw (e, a) refl

stopped :
    (l : Lane)
    → IsRing l
    → (ltb l.in_buf l.capacity && ltb 0 l.inc) ≡ false
    → (l.in_buf ≡ l.capacity) ⊎ (l.inc ≡ 0)
stopped l ok stop = elim (Bool-cases (ltb l.in_buf l.capacity)) [
  | inl less ↦ inr (ground arith)
  | inr full ↦ inl (ground (arith, ok.fits))
]

-- The inner loop of `car_arrive` ends: the cars keep their order, and the buffer is full or no car
-- is left to arrive.
pub fill_lem : (fuel : ℕ) (l : Lane) → IsRing l → l.inc < fuel → Returns (Filled l) (fill fuel l)
fill_lem zero l ok enough = absurd (omega arith)
fill_lem (suc fuel) l ok enough = elim (Bool-cases (ltb l.in_buf l.capacity && ltb 0 l.inc)) [
  | inr stop ↦ rw (fill_stop fuel l stop) (returns (Fed-refl l ok, stopped l ok stop))
  | inl go ↦ elim (List-cases l.in_cars) [
    | inl none_left ↦ absurd (ground (arith, ok.counted, ap length none_left))
    | inr (c, rest, e) ↦
        let room : l.in_buf < l.capacity = ground arith in
        let l' = admitted l c rest in
        let fed = Fed-admitted l ok room c rest e in
        let less = ap length e in
        rw (fill_go fuel l l' go (admit_run l ok room c rest e)) (
          mono (fill_lem fuel l' fed.ring (omega (arith, ok.counted)))
            (λ _ l'' (more, end). (Fed-trans l l' l'' fed more, end)))
  ]
]

-- ===== src/Traffic/Crossing.antt =====
-- A2/cars.c: cars cross in the order in which they arrive.
use csc369_assignments.Prelude.{
  ℕ, suc, ◌+◌, ◌-◌, ◌%◌, ◌<◌, ◌≡◌, ◌≢◌, refl, sym, ap, ◌∙◌, inl, inr, true, some, List, [], ◌∷◌,
  ◌++◌, ltb, ◌==◌, update, update_self, update_ne, arith, Bool-cases, eq_of_test, ne_of_test,
}
use mathlib.Core.Path.{subst}
use native.Mathlib.Nat.{mod-lt}
use csc369_assignments.Traffic.Order.{compute_path-IsPath}
use csc369_assignments.Traffic.Lane.{Car, Lane, cross_front}
use csc369_assignments.Traffic.Ring.{queue, pending, IsRing, step_on}

-- The directions of a car are those of the intersection.
abbrev pub AllValid : List Car → Type 0
AllValid [] = Unit {0}
AllValid (c ∷ cs) = (c.in_dir < 4) × (c.out_dir < 4) × AllValid cs

-- All four lanes are in order.
abbrev pub InOrder : (ℕ → Lane) → Type 0
InOrder s = (i : ℕ) → i < 4 → IsRing (s i) × AllValid (pending (s i))

abbrev pub front : Lane → Car
front l = l.buffer l.head

-- The lane once its first car has gone.
abbrev pub gone : Lane → Lane
gone l = record l { head = (l.head + 1) % l.capacity; in_buf = l.in_buf - 1 }

abbrev leaving : Lane → List Car → Lane
leaving l out = record l { out_cars = out }

module _ (l : Lane) (ok : IsRing l) where
  pub pending-gone : 0 < l.in_buf → pending l ≡ front l ∷ pending (gone l)
  unfolding queue
  pending-gone busy =
      let e : l.in_buf ≡ suc (l.in_buf - 1) = omega arith in
      ap (λ n. queue l.buffer l.capacity n l.head ++ l.in_cars) e

  IsRing-gone : 0 < l.in_buf → IsRing (gone l)
  IsRing-gone busy = record {
    some_room = ok.some_room;
    head_in = mod-lt (l.head + 1) {m = l.capacity} ok.some_room;
    fits = omega (arith, ok.fits);
    tail_at =
        ok.tail_at
        ∙ (ap (λ n. (l.head + n) % l.capacity) {x = l.in_buf} {y = suc (l.in_buf - 1)} (omega arith)
            ∙ sym (step_on l.capacity l.head (l.in_buf - 1)));
    counted = ok.counted;
  }

  IsRing-leaving : (out : List Car) → IsRing (leaving l out)
  IsRing-leaving out = record {
    some_room = ok.some_room;
    head_in = ok.head_in;
    fits = ok.fits;
    tail_at = ok.tail_at;
    counted = ok.counted;
  }

module _ (i : ℕ) (s : ℕ → Lane) where
  abbrev c : Car
  c = front (s i)

  -- The car `c` stands in its out lane.
  abbrev out : ℕ → Lane
  out = update s c.out_dir (leaving (s c.out_dir) (c ∷ (s c.out_dir).out_cars))

  -- The lanes once the first car of lane `i` has crossed.
  abbrev pub after : ℕ → Lane
  after = update out i (gone (out i))

  out_at : (j : ℕ) → out j ≡ leaving (s j) (out j).out_cars
  out_at j = ground arith

  module _ (lt : i < 4) (order : InOrder s) (busy : 0 < (s i).in_buf) where
    valid : (c.in_dir < 4) × (c.out_dir < 4) × AllValid (pending (gone (s i)))
    valid = let (ok, all) = order i lt in subst AllValid (pending-gone (s i) ok busy) all

    pub cross_run : cross_front i s ≡ some (c, after)
    unfolding cross_front
    cross_run =
        let (ok, _) = order i lt in
        let (hi, ho, _) = valid in
        let (path, found, _) = compute_path-IsPath c.in_dir c.out_dir hi ho in
        let lane : ltb i 4 ≡ true = ground arith in
        let room : ltb (s i).head (s i).capacity ≡ true = ground (arith, ok.head_in) in
        let beyond : ltb c.out_dir 4 ≡ true = ground arith in
        rw (lane, room, found, beyond, beyond, lane, lane) refl

    pub after_self : after i ≡ leaving (gone (s i)) (out i).out_cars
    after_self = update_self out i (gone (out i)) ∙ ap gone (out_at i)

    pub after_other : (j : ℕ) → i ≢ j → after j ≡ leaving (s j) (out j).out_cars
    after_other j ne = update_ne out i (gone (out i)) j ne ∙ out_at j

    pub after-InOrder : InOrder after
    after-InOrder j low = elim (Bool-cases (i == j)) [
      | inl same ↦
          let e = eq_of_test i j same in
          let (ok, _) = order i lt in
          let (_, _, all) = valid in
          subst (λ k. IsRing (after k) × AllValid (pending (after k))) e
            (rw after_self
              (IsRing-leaving (gone (s i)) (IsRing-gone (s i) ok busy) (out i).out_cars, all))
      | inr other ↦
          let (ok, all) = order j low in
          rw (after_other j (ne_of_test i j other)) (IsRing-leaving (s j) ok (out j).out_cars, all)
    ]

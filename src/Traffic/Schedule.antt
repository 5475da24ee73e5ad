-- ===== src/Traffic/Schedule.antt =====
-- A2/cars.c: the intersection is set up and the schedule read.
use csc369_assignments.Prelude.{
  ℕ, ◌+◌, ◌<◌, ◌≡◌, refl, sym, ap, ◌∙◌, inl, inr, true, List, [], ◌∷◌, ◌++◌, ltb, ◌==◌,
  if◌then◌else◌, update, arith, Bool-cases, eq_of_test,
}
use mathlib.Core.List.{append-nil}
use csc369_assignments.Prelude.State.{Returns, returns, mono, ◌>>◌}
use csc369_assignments.Traffic.Lane.{Car, Lane, empty_lane, init_intersection, parse_schedule}
use csc369_assignments.Traffic.Ring.{queue, pending, IsRing, append_one}
use csc369_assignments.Traffic.Crossing.{InOrder, AllValid}

-- The cars of a schedule that come in by lane `i`, the last of them first.
unfoldable pub latest_first : ℕ → List Car → List Car
latest_first i [] = []
latest_first i (c ∷ cars) =
    let rest = latest_first i cars in if c.in_dir == i then rest ++ (c ∷ []) else rest

-- A lane before any car has arrived.
pub record IsFresh (l : Lane) : Type 0 where
  pub ring : IsRing l
  pub nobody : l.in_buf ≡ 0
  pub valid : AllValid l.in_cars

InOrder-fresh : (s : ℕ → Lane) → ((i : ℕ) → i < 4 → IsFresh (s i)) → InOrder s
unfolding queue
InOrder-fresh s fresh i lt = let f = fresh i lt in (f.ring, rw f.nobody f.valid)

IsFresh-car :
    (l : Lane) (c : Car)
    → c.in_dir < 4
    → c.out_dir < 4
    → IsFresh l
    → IsFresh (record l { in_cars = c ∷ l.in_cars; inc = l.inc + 1 })
IsFresh-car l c hi ho f = record {
  ring = record {
    some_room = f.ring.some_room;
    head_in = f.ring.head_in;
    fits = f.ring.fits;
    tail_at = f.ring.tail_at;
    counted = omega (arith, f.ring.counted);
  };
  nobody = f.nobody;
  valid = (hi, ho, f.valid);
}

abbrev Read : List Car → (ℕ → Lane) → (ℕ → Lane) → Type 0
Read cars s s' =
    ((i : ℕ) → i < 4 → IsFresh (s' i))
    × ((i : ℕ) → (s' i).in_cars ≡ latest_first i cars ++ (s i).in_cars)

parse_schedule-fresh :
    (cars : List Car) (s : ℕ → Lane)
    → AllValid cars
    → ((i : ℕ) → i < 4 → IsFresh (s i))
    → Returns (λ _ s'. Read cars s s') (parse_schedule cars s)
unfolding parse_schedule latest_first
parse_schedule-fresh [] s all fresh = returns (fresh, λ i. refl)
parse_schedule-fresh (c ∷ cars) s (hi, ho, all) fresh =
    let lane : ltb c.in_dir 4 ≡ true = ground arith in
    let l = s c.in_dir in
    let s1 = update s c.in_dir (record l { in_cars = c ∷ l.in_cars; inc = l.inc + 1 }) in
    let fresh1 : (i : ℕ) → i < 4 → IsFresh (s1 i) = λ i lt. elim (Bool-cases (c.in_dir == i)) [
      | inl same ↦ rw same (IsFresh-car l c hi ho (fresh c.in_dir hi))
      | inr other ↦ rw other (fresh i lt)
    ] in
    rw (lane, lane)
      (mono (parse_schedule-fresh cars s1 all fresh1) (λ _ s' (fresh', lists). (
        fresh',
        λ i. elim (Bool-cases (c.in_dir == i)) [
          | inl same ↦
              let at = eq_of_test c.in_dir i same in
              let mine : (s1 i).in_cars ≡ c ∷ (s i).in_cars =
                rw same (ap (λ k. c ∷ (s k).in_cars) at) in
              rw same (
                lists i
                ∙ (ap (λ l. latest_first i cars ++ l) mine
                    ∙ sym (append_one (latest_first i cars) c (s i).in_cars)))
          | inr other ↦
              let mine : (s1 i).in_cars ≡ (s i).in_cars = rw other refl in
              rw other (lists i ∙ ap (λ l. latest_first i cars ++ l) mine)
        ],
      )))

IsFresh-empty : (buffer : ℕ → Car) → IsFresh (empty_lane buffer)
IsFresh-empty buffer = record {
  ring = record {
    some_room = omega arith;
    head_in = omega arith;
    fits = omega arith;
    tail_at = refl;
    counted = refl;
  };
  nobody = refl;
  valid = tt;
}

-- From any memory, `init_intersection` and then `parse_schedule`, on a schedule whose directions are
-- those of the intersection, return. All lanes are in order then, their buffers are empty, and
-- each has its cars of the schedule, the last of them first.
parse_schedule-init_intersection :
    (buffers : ℕ → ℕ → Car) (cars : List Car) (s : ℕ → Lane)
    → AllValid cars
    → Returns
        (λ _ s'. InOrder s' × ((i : ℕ) → i < 4 → pending (s' i) ≡ latest_first i cars))
        ((init_intersection buffers >> parse_schedule cars) s)
unfolding init_intersection queue
parse_schedule-init_intersection buffers cars s all =
    let s1 : ℕ → Lane = λ i. if ltb i 4 then empty_lane (buffers i) else s i in
    let fresh : (i : ℕ) → i < 4 → IsFresh (s1 i) =
      λ i lt. let lane : ltb i 4 ≡ true = ground arith in rw lane (IsFresh-empty (buffers i)) in
    mono (parse_schedule-fresh cars s1 all fresh) (λ _ s' (fresh', lists). (
      InOrder-fresh s' fresh',
      λ i lt.
          let lane : ltb i 4 ≡ true = ground arith in
          let none_yet : (s1 i).in_cars ≡ [] = rw lane refl in
          rw (fresh' i lt).nobody (
            lists i
            ∙ (ap (λ l. latest_first i cars ++ l) none_yet ∙ append-nil (latest_first i cars))),
    ))

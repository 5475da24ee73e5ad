-- ===== src/Prelude/Count.antt =====
-- Counting the numbers that pass a test, and going around a circle.
use Prim.Native.Nat.{ℕ, zero, suc, ◌+◌, ◌-◌, ◌%◌, ◌≤◌, ◌<◌}
use native.Mathlib.Nat.{mod-eq_of_lt, mod-eq-sub-mod}
use csc369_assignments.Prelude.{
  ◌≡◌, ◌≢◌, refl, sym, ◌∙◌, Bool, true, false, ◌==◌, ltb, if◌then◌else◌, arith, Bool-cases, inl,
  inr, eq_of_test,
}

-- How many of the numbers below `n` pass a test.
unfoldable pub count : ℕ → (ℕ → Bool) → ℕ
count zero f = 0
count (suc n) f = (if f n then 1 else 0) + count n f

pub count-le_self : (n : ℕ) (f : ℕ → Bool) → count n f ≤ n
unfolding count
count-le_self zero f = omega arith
count-le_self (suc n) f = ground (arith, count-le_self n f)

pub count-le :
    (n : ℕ) (f g : ℕ → Bool) → ((i : ℕ) → g i ≡ true → f i ≡ true) → count n g ≤ count n f
unfolding count
count-le zero f g h = omega arith
count-le (suc n) f g h = ground (arith, count-le n f g h, h n)

pub count-lt :
    (n k : ℕ) (f g : ℕ → Bool)
    → ((i : ℕ) → g i ≡ true → f i ≡ true)
    → k < n
    → f k ≡ true
    → g k ≡ false
    → count n g < count n f
unfolding count
count-lt zero k f g h lt on off = absurd (omega arith)
count-lt (suc n) k f g h lt on off = elim (Bool-cases (k == n)) [
  | inl same ↦
      let e = eq_of_test k n same in
      let on' : f n ≡ true = rw e at on in
      let off' : g n ≡ false = rw e at off in rw (on', off') (omega (arith, count-le n f g h))
  | inr other ↦ ground (arith, count-lt n k f g h (ground arith) on off, h n)
]

-- To go around a circle less than once does not lead back.
pub circle : (n h d : ℕ) → h < n → 0 < d → d < n → (h + d) % n ≢ h
circle n h d hn some_way less = elim (Bool-cases (ltb (h + d) n)) [
  | inl inner ↦ λ e. omega (arith, sym (mod-eq_of_lt {n = h + d} {m = n} (ground arith)) ∙ e)
  | inr outer ↦
      let le : n ≤ h + d = ground arith in
      let q : (h + d) % n ≡ h + d - n =
        mod-eq-sub-mod le ∙ mod-eq_of_lt {n = h + d - n} {m = n} (omega arith) in
      λ e. omega (arith, sym q ∙ e)
]

pub count_same : (n : ℕ) (f g : ℕ → Bool) → ((i : ℕ) → i < n → g i ≡ f i) → count n g ≡ count n f
unfolding count
count_same zero f g same = refl
count_same (suc n) f g same =
    rw (same n (omega arith), count_same n f g (λ i small. same i (omega arith))) refl

-- One number less that passes.
pub count_update :
    (n k : ℕ) (f g : ℕ → Bool)
    → k < n
    → f k ≡ true
    → ((i : ℕ) → g i ≡ (if k == i then false else f i))
    → count n g + 1 ≡ count n f
unfolding count
count_update zero k f g lt on same = absurd (omega arith)
count_update (suc n) k f g lt on same = elim (Bool-cases (k == n)) [
  | inl last ↦
      let e = eq_of_test k n last in
      let on' : f n ≡ true = rw e at on in
      let off : g n ≡ false = same n ∙ rw last refl in
      rw (on', off) (ground (arith, count_same n f g (λ i small. same i ∙ ground arith)))
  | inr other ↦ ground (arith, same n, count_update n k f g)
]

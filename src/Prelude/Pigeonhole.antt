-- ===== src/Prelude/Pigeonhole.antt =====
-- The pigeonhole principle for a relation that no two numbers share a value of.
use csc369_assignments.Prelude.{
  ℕ, zero, suc, ◌≤◌, ◌<◌, ◌≡◌, refl, true, false, List, [], ◌∷◌, length, has, Distinct, ◌==◌, arith,
  Bool-cases, inl, inr, eq_of_test, length-le_of_Distinct,
}

module _ (R : ℕ → ℕ → Type 0) (p : ℕ) (once : (k j v : ℕ) → R k v → R j v → k ≡ j) where
  record Chosen (n : ℕ) : Type 0 where
    values : List ℕ
    size : length values ≡ n
    distinct : Distinct values
    below : (a : ℕ) → has a values ≡ true → a < p
    source : (a : ℕ) → has a values ≡ true → (k : ℕ) × (k < n) × R k a

  fresh : (n : ℕ) (c : Chosen n) (v : ℕ) → R n v → has v c.values ≡ false
  fresh n c v r = elim (Bool-cases (has v c.values)) [
    | inr off ↦ off
    | inl on ↦ let (k, lt, r') = c.source v on in let e = once k n v r' r in absurd (omega arith)
  ]

  choose : (n : ℕ) → ((k : ℕ) → k < n → (v : ℕ) × (v < p) × R k v) → Chosen n
  choose zero total = record {
    values = [];
    size = refl;
    distinct = tt;
    below = λ a h. cc;
    source = λ a h. cc;
  }
  choose (suc n) total =
      let c = choose n (λ k lt. total k (omega arith)) in
      let (v, lt, r) = total n (omega arith) in
      record {
        values = v ∷ c.values;
        size = omega (arith, c.size);
        distinct = (fresh n c v r, c.distinct);
        below = λ a h. elim (Bool-cases (a == v)) [
          | inl same ↦ ground arith
          | inr other ↦ ground (arith, c.below a)
        ];
        source = λ a h. elim (Bool-cases (a == v)) [
          | inl same ↦ (n, omega arith, rw (eq_of_test a v same) r)
          | inr other ↦ let (k, lt', r') = c.source a (ground arith) in (k, omega arith, r')
        ];
      }

  pub pigeonhole : (n : ℕ) → ((k : ℕ) → k < n → (v : ℕ) × (v < p) × R k v) → n ≤ p
  pigeonhole n total =
      let c = choose n total in
      omega (arith, c.size, length-le_of_Distinct p c.values c.distinct c.below)

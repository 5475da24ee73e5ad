-- ===== src/Prelude/Lists.antt =====
-- Lists measured and indexed by native numbers, under the library's names.
use Prim.Native.Nat.{ℕ, zero, suc, ◌+◌, ◌≤◌, ◌<◌}
use mathlib.Core.Path.{◌≡◌, refl, ap}
use mathlib.Core.Logic.{◌≢◌, ◌⊎◌, inl, inr}
use mathlib.Core.Bool.{Bool, true, false, ◌||◌}
use mathlib.Core.List.{List, [], ◌∷◌, ◌++◌}
use native.Mathlib.Omega.{arith}
use csc369_assignments.Prelude.Tests.{◌==◌, Bool-cases}

module _ {ℓ} {A : Type ℓ} where
  abbrev pub length : List A → ℕ
  length [] = 0
  length (x ∷ xs) = suc (length xs)

  abbrev pub get_or : List A → ℕ → A → A
  get_or [] i d = d
  get_or (x ∷ xs) zero d = x
  get_or (x ∷ xs) (suc i) d = get_or xs i d

  -- A write out of bounds changes nothing.
  abbrev pub set : List A → ℕ → A → List A
  set [] i v = []
  set (x ∷ xs) zero v = v ∷ xs
  set (x ∷ xs) (suc i) v = x ∷ set xs i v

  abbrev pub replicate : ℕ → A → List A
  replicate zero a = []
  replicate (suc n) a = a ∷ replicate n a

  pub length-append : (xs ys : List A) → length (xs ++ ys) ≡ length xs + length ys
  length-append [] ys = omega arith
  length-append (x ∷ xs) ys = omega (arith, length-append xs ys)

module _ {ℓ} {A : Type ℓ} where
  pub length-set : (xs : List A) (i : ℕ) (v : A) → length (set xs i v) ≡ length xs
  length-set [] i v = refl
  length-set (x ∷ xs) zero v = refl
  length-set (x ∷ xs) (suc i) v = ap suc (length-set xs i v)

  pub length-replicate : (n : ℕ) (a : A) → length (replicate n a) ≡ n
  length-replicate zero a = refl
  length-replicate (suc n) a = ap suc (length-replicate n a)

  pub get_or-set_self :
      (xs : List A) (i : ℕ) (v d : A) → i < length xs → get_or (set xs i v) i d ≡ v
  get_or-set_self [] i v d h = elim h [ ]
  get_or-set_self (x ∷ xs) zero v d h = refl
  get_or-set_self (x ∷ xs) (suc i) v d h = get_or-set_self xs i v d (omega arith)

  pub get_or-set_ne :
      (xs : List A) (i j : ℕ) (v d : A) → i ≢ j → get_or (set xs i v) j d ≡ get_or xs j d
  get_or-set_ne [] i j v d h = refl
  get_or-set_ne (x ∷ xs) zero zero v d h = absurd (h refl)
  get_or-set_ne (x ∷ xs) zero (suc j) v d h = refl
  get_or-set_ne (x ∷ xs) (suc i) zero v d h = refl
  get_or-set_ne (x ∷ xs) (suc i) (suc j) v d h = get_or-set_ne xs i j v d (λ e. h (ap suc e))

  pub set_twice : (xs : List A) (i : ℕ) (v w : A) → set (set xs i v) i w ≡ set xs i w
  set_twice [] i v w = refl
  set_twice (x ∷ xs) zero v w = refl
  set_twice (x ∷ xs) (suc i) v w = ap (λ l. x ∷ l) (set_twice xs i v w)

  pub set_same : (xs : List A) (i : ℕ) (d : A) → set xs i (get_or xs i d) ≡ xs
  set_same [] i d = refl
  set_same (x ∷ xs) zero d = refl
  set_same (x ∷ xs) (suc i) d = ap (λ l. x ∷ l) (set_same xs i d)

module _ {ℓ} {A : Type ℓ} where
  pub List-cases : (xs : List A) → (xs ≡ []) ⊎ ((x : A) × (rest : List A) × (xs ≡ x ∷ rest))
  List-cases [] = inl refl
  List-cases (x ∷ xs) = inr (x, xs, refl)

-- Membership of a number, as a test.
abbrev pub has : ℕ → List ℕ → Bool
has a [] = false
has a (x ∷ xs) = (a == x) || has a xs

abbrev pub Distinct : List ℕ → Type 0
Distinct [] = Unit {0}
Distinct (x ∷ xs) = (has x xs ≡ false) × Distinct xs

-- All but the first occurrence of a number.
unfoldable pub erase : ℕ → List ℕ → List ℕ
erase a [] = []
erase a (x ∷ xs) = elim (a == x) [ true ↦ xs | false ↦ x ∷ erase a xs ]

pub length-erase : (a : ℕ) (xs : List ℕ) → has a xs ≡ true → suc (length (erase a xs)) ≡ length xs
unfolding erase
length-erase a [] h = ground arith
length-erase a (x ∷ xs) h = ground (arith, length-erase a xs)

pub has-erase_ne : (a b : ℕ) (xs : List ℕ) → (a == b) ≡ false → has b (erase a xs) ≡ has b xs
unfolding erase
has-erase_ne a b [] h = refl
has-erase_ne a b (x ∷ xs) h = ground (arith, has-erase_ne a b xs)

pub has-erase_le : (a b : ℕ) (xs : List ℕ) → has b xs ≡ false → has b (erase a xs) ≡ false
unfolding erase
has-erase_le a b [] h = refl
has-erase_le a b (x ∷ xs) h = ground (arith, has-erase_le a b xs)

pub has-erase_self : (a : ℕ) (xs : List ℕ) → Distinct xs → has a (erase a xs) ≡ false
unfolding erase
has-erase_self a [] h = refl
has-erase_self a (x ∷ xs) h = ground (arith, has-erase_self a xs)

pub Distinct-erase : (a : ℕ) (xs : List ℕ) → Distinct xs → Distinct (erase a xs)
unfolding erase
Distinct-erase a [] h = tt
Distinct-erase a (x ∷ xs) h = ground (arith, Distinct-erase a xs, has-erase_le a x xs)

pub erase_absent : (a : ℕ) (xs : List ℕ) → has a xs ≡ false → erase a xs ≡ xs
unfolding erase
erase_absent a [] h = refl
erase_absent a (x ∷ xs) h = ground (arith, erase_absent a xs)

-- A list of different numbers below `n` has at most `n` members.
pub length-le_of_Distinct :
    (n : ℕ) (xs : List ℕ) → Distinct xs → ((a : ℕ) → has a xs ≡ true → a < n) → length xs ≤ n
length-le_of_Distinct zero [] d below = omega arith
length-le_of_Distinct zero (x ∷ xs) d below = absurd (omega (arith, below x (ground arith)))
length-le_of_Distinct (suc n) xs d below = elim (Bool-cases (has n xs)) [
  | inl on ↦ omega (
    arith,
    length-erase n xs on,
    length-le_of_Distinct n (erase n xs) (Distinct-erase n xs d)
        (λ a h. ground (arith, below a, has-erase_self n xs d, has-erase_ne n a xs)),
  )
  | inr off ↦ omega (arith, length-le_of_Distinct n xs d (λ a h. ground (arith, below a)))
]

-- ===== src/Swap/Bitmap/Scan.antt =====
-- A3/swap.c: the search of `bitmap_alloc` for a clear bit in one word, and the fill of `bitmap_create`.
use csc369_assignments.Prelude.{
  ℕ, zero, suc, ◌+◌, ◌^◌, ◌≤◌, ◌<◌, ◌≡◌, refl, ◌≢◌, ◌⊎◌, inl, inr, true, false, ◌&&◌, none, some,
  ltb, leb, ◌==◌, if◌then◌else◌, arith, Bool-cases, eq_of_test,
}
use csc369_assignments.Prelude.Word.{test_bit, set_bit, test_bit-set_bit, set_bit-lt, eq_ones}
use csc369_assignments.Swap.Bitmap.{find_clear, fill_from, word_allbits}

-- The first clear bit of `w` from `o` on.
pub record IsFirst (o n w r : ℕ) : Type 0 where
  pub from : o ≤ r
  pub to : r < o + n
  pub clear : test_bit w r ≡ false
  pub before : (j : ℕ) → o ≤ j → j < r → test_bit w j ≡ true

from_here :
    (o w hi : ℕ)
    → test_bit w o ≡ true
    → ((j : ℕ) → suc o ≤ j → j < hi → test_bit w j ≡ true)
    → (j : ℕ) → o ≤ j
    → j < hi
    → test_bit w j ≡ true
from_here o w hi used all j lo below = elim (Bool-cases (o == j)) [
  | inl same ↦ rw (← eq_of_test o j same) used
  | inr other ↦ all j (ground arith) below
]

pub find_clear_lem :
    (n o w : ℕ)
    → ((find_clear n o w ≡ none) × ((j : ℕ) → o ≤ j → j < o + n → test_bit w j ≡ true))
      ⊎ ((r : ℕ) × (find_clear n o w ≡ some r) × IsFirst o n w r)
unfolding find_clear
find_clear_lem zero o w = inl (refl, λ j lo hi. absurd (omega arith))
find_clear_lem (suc n) o w = elim (Bool-cases (test_bit w o)) [
  | inr clear ↦ inr (
    o,
    rw clear refl,
    record {
      from = omega arith;
      to = omega arith;
      clear = clear;
      before = λ j lo hi. absurd (omega arith);
    },
  )
  | inl used ↦ elim (find_clear_lem n (suc o) w) [
    | inl (e, all) ↦
        inl (rw used e, from_here o w (o + suc n) used (λ j lo hi. all j lo (omega arith)))
    | inr (r, e, first) ↦ inr (
      r,
      rw used e,
      record {
        from = omega (arith, first.from);
        to = omega (arith, first.to);
        clear = first.clear;
        before = from_here o w r used first.before;
      },
    )
  ]
]

-- A word that is not `WORD_ALLBITS` has a clear bit, so that the assertion behind the inner loop
-- is never reached.
pub find_clear-some :
    (w : ℕ)
    → w < 2 ^ 32
    → w ≢ word_allbits
    → (r : ℕ) × (find_clear 32 0 w ≡ some r) × IsFirst 0 32 w r
find_clear-some w small ne = elim (find_clear_lem 32 0 w) [
  | inr found ↦ found
  | inl (e, all) ↦
      absurd (ne (omega (arith, eq_ones 32 w small (λ j h. all j (omega arith) (omega arith)))))
]

-- The fill marks the bits from `j` on, and no others.
pub test_bit-fill_from :
    (n j w k : ℕ)
    → test_bit (fill_from n j w) k ≡ (if leb j k && ltb k (j + n) then true else test_bit w k)
unfolding fill_from
test_bit-fill_from zero j w k = ground arith
test_bit-fill_from (suc n) j w k =
    ground (arith, test_bit-fill_from n (suc j) (set_bit w j) k, test_bit-set_bit w j k)

pub fill_from-lt : (n j w : ℕ) → j + n ≤ 32 → w < 2 ^ 32 → fill_from n j w < 2 ^ 32
unfolding fill_from
fill_from-lt zero j w h small = small
fill_from-lt (suc n) j w h small =
    fill_from-lt n (suc j) (set_bit w j) (omega arith) (set_bit-lt 32 w j (omega arith) small)

-- ===== src/Swap/Bitmap/Alloc.antt =====
-- A3/swap.c: `bitmap_alloc` hands out the first free slot, and fails only if there is none.
use csc369_assignments.Prelude.{
  ℕ, zero, suc, ◌+◌, ◌*◌, ◌/◌, ◌%◌, ◌≤◌, ◌<◌, ◌≡◌, refl, ◌⊎◌, inl, inr, true, false, none, some,
  ltb, ◌==◌, if◌then◌else◌, arith, Bool-cases, eq_of_test, ne_of_test, length,
}
use csc369_assignments.Prelude.Word.{test_bit, set_bit, test_bit-set_bit, set_bit-lt, test_bit-ones}
use csc369_assignments.Swap.Bitmap.{
  Bitmap, word, words_for, word_allbits, alloc_from, bitmap_alloc, bitmap_isset,
}
use csc369_assignments.Swap.Bitmap.Valid.{
  IsValid, isset-put_word, put_word-IsValid, word_in_range, put_word,
}
use csc369_assignments.Swap.Bitmap.Scan.{IsFirst, find_clear-some}

-- What a successful allocation of the slot `i` is.
pub record IsAlloc (b : Bitmap) (i : ℕ) (b' : Bitmap) : Type 0 where
  pub inside : i < b.nbits
  pub was_free : bitmap_isset b i ≡ false
  pub lowest : (j : ℕ) → j < i → bitmap_isset b j ≡ true
  pub now : (j : ℕ) → bitmap_isset b' j ≡ (if i == j then true else bitmap_isset b j)
  pub size : b'.nbits ≡ b.nbits
  pub valid : IsValid b'

-- The two ways in which the search can end.
abbrev pub Found : Bitmap → ℕ → ℕ → Type 0
Found b n ix =
    ((alloc_from n ix b ≡ some none)
      × ((j : ℕ) → 32 * ix ≤ j → j < 32 * (ix + n) → bitmap_isset b j ≡ true))
    ⊎ ((i : ℕ) × (b' : Bitmap) × (alloc_from n ix b ≡ some (some (i, b'))) × IsAlloc b i b')

module _ (b : Bitmap) (ok : IsValid b) where
  -- All bits of a word that is `WORD_ALLBITS` are marked.
  full_word :
      (ix : ℕ)
      → (word b ix == word_allbits) ≡ true
      → (j : ℕ) → 32 * ix ≤ j
      → j < 32 * suc ix
      → bitmap_isset b j ≡ true
  unfolding bitmap_isset
  full_word ix full j lo hi =
      let e : j / 32 ≡ ix = omega arith in
      rw e
        (test_bit-ones 32 (word b ix) (j % 32) (omega (arith, eq_of_test _ _ full)) (omega arith))

  -- The bit that the inner loop finds is below `nbits`, so that the assertion on it holds.
  first_inside : (ix r : ℕ) → ix < length b.v → IsFirst 0 32 (word b ix) r → ix * 32 + r < b.nbits
  unfolding bitmap_isset
  first_inside ix r room first = elim (Bool-cases (ltb (ix * 32 + r) b.nbits)) [
    | inl below ↦ ground arith
    | inr above ↦
        let q : (ix * 32 + r) / 32 ≡ ix = omega (arith, first.to) in
        let m : (ix * 32 + r) % 32 ≡ r = omega (arith, first.to) in
        let used : test_bit (word b ((ix * 32 + r) / 32)) ((ix * 32 + r) % 32) ≡ true =
          ok.rest (ix * 32 + r) (ground arith) (omega (arith, first.to)) in
        let taken : test_bit (word b ix) r ≡ true = rw (q, m) at used in
        let clear = first.clear in cc
  ]

  IsAlloc-at :
      (i : ℕ)
      → i < b.nbits
      → bitmap_isset b i ≡ false
      → ((j : ℕ) → j < i → bitmap_isset b j ≡ true)
      → IsAlloc b i (put_word b (i / 32) (set_bit (word b (i / 32)) (i % 32)))
  IsAlloc-at i inside free before =
      let w = set_bit (word b (i / 32)) (i % 32) in
      let room = word_in_range b i ok inside in
      let bit = test_bit-set_bit (word b (i / 32)) (i % 32) in
      record {
        inside = inside;
        was_free = free;
        lowest = before;
        now = isset-put_word b i w true room bit;
        size = refl;
        valid =
            put_word-IsValid b i w true room bit inside
              (set_bit-lt 32 (word b (i / 32)) (i % 32) (omega arith) (ok.words (i / 32))) ok;
      }

  IsAlloc-first :
      (ix r : ℕ)
      → ix < length b.v
      → ((j : ℕ) → j < 32 * ix → bitmap_isset b j ≡ true)
      → IsFirst 0 32 (word b ix) r
      → IsAlloc b (ix * 32 + r) (put_word b ix (set_bit (word b ix) r))
  unfolding bitmap_isset
  IsAlloc-first ix r room before first =
      let q : (ix * 32 + r) / 32 ≡ ix = omega (arith, first.to) in
      let m : (ix * 32 + r) % 32 ≡ r = omega (arith, first.to) in
      rw (q, m) at
        (IsAlloc-at (ix * 32 + r) (first_inside ix r room first) (rw (q, m) first.clear) (λ j lt.
          elim (Bool-cases (ltb j (32 * ix))) [
            | inl below ↦ before j (ground arith)
            | inr within ↦
                let e : j / 32 ≡ ix = ground (arith, first.to) in
                rw e (first.before (j % 32) (omega arith) (ground (arith, first.to)))
          ]))

  before_next :
      (ix : ℕ)
      → ((j : ℕ) → j < 32 * ix → bitmap_isset b j ≡ true)
      → (word b ix == word_allbits) ≡ true
      → (j : ℕ) → j < 32 * suc ix
      → bitmap_isset b j ≡ true
  before_next ix before full j lt = elim (Bool-cases (ltb j (32 * ix))) [
    | inl below ↦ before j (ground arith)
    | inr within ↦ full_word ix full j (ground arith) lt
  ]

  alloc_from_lem :
      (n ix : ℕ)
      → ix + n ≡ length b.v
      → ((j : ℕ) → j < 32 * ix → bitmap_isset b j ≡ true)
      → Found b n ix
  unfolding alloc_from
  alloc_from_lem zero ix e before = inl (refl, λ j lo hi. absurd (omega arith))
  alloc_from_lem (suc n) ix e before = elim (Bool-cases (word b ix == word_allbits)) [
    | inl full ↦ elim (alloc_from_lem n (suc ix) (omega arith) (before_next ix before full)) [
      | inl (stop, all) ↦ inl (
        rw full stop,
        λ j lo hi. elim (Bool-cases (ltb j (32 * suc ix))) [
          | inl here ↦ full_word ix full j lo (ground arith)
          | inr later ↦ all j (ground arith) (omega arith)
        ],
      )
      | inr (i, b', found, alloc) ↦ inr (i, b', rw full found, alloc)
    ]
    | inr free ↦
        let (r, found, first) = find_clear-some (word b ix) (ok.words ix) (ne_of_test _ _ free) in
        let inside : ltb (ix * 32 + r) b.nbits ≡ true =
          ground (arith, first_inside ix r (omega arith) first) in
        inr (
          ix * 32 + r,
          put_word b ix (set_bit (word b ix) r),
          rw (free, found, inside) refl,
          IsAlloc-first ix r (omega arith) before first,
        )
  ]

  -- On a valid bitmap `bitmap_alloc` never fails an assertion. Either it reports that every slot is
  -- in use, and then every slot is; or it returns the lowest free slot, marks that slot and no
  -- other, and the bitmap stays valid.
  pub bitmap_alloc_lem :
      ((bitmap_alloc b ≡ some none) × ((j : ℕ) → j < b.nbits → bitmap_isset b j ≡ true))
      ⊎ ((i : ℕ) × (b' : Bitmap) × (bitmap_alloc b ≡ some (some (i, b'))) × IsAlloc b i b')
  unfolding bitmap_alloc
  bitmap_alloc_lem =
      elim (alloc_from_lem (words_for b.nbits) 0 (omega (arith, ok.size))
        (λ j lt. absurd (omega arith))) [
          | inl (e, all) ↦ inl (e, λ j lt. all j (omega arith) (omega (arith, ok.small)))
          | inr found ↦ inr found
        ]

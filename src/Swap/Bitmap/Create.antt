-- ===== src/Swap/Bitmap/Create.antt =====
-- A3/swap.c: `bitmap_create` makes a valid bitmap in which every slot is free.
use csc369_assignments.Prelude.{
  ℕ, zero, suc, ◌+◌, ◌-◌, ◌*◌, ◌/◌, ◌%◌, ◌^◌, ◌<◌, ◌≡◌, refl, ◌≢◌, inl, inr, true, false, ◌&&◌,
  some, List, ltb, leb, ◌==◌, arith, Bool-cases, eq_of_test, ne_of_test, length, replicate, get_or,
  length-replicate, length-set, get_or-set_self, get_or-set_ne,
}
use csc369_assignments.Prelude.Word.{test_bit-zero}
use csc369_assignments.Swap.Bitmap.{Bitmap, word, words_for, fill_from, bitmap_create, bitmap_isset}
use csc369_assignments.Swap.Bitmap.Valid.{IsValid, put_word}
use csc369_assignments.Swap.Bitmap.Scan.{test_bit-fill_from, fill_from-lt}

abbrev pub none_used : ℕ → List ℕ
none_used n = replicate n 0

length-none_used : (n : ℕ) → length (none_used n) ≡ n
length-none_used n = length-replicate {A = ℕ} n 0

get_or-replicate : (n i : ℕ) → get_or (none_used n) i 0 ≡ 0
get_or-replicate zero i = refl
get_or-replicate (suc n) zero = refl
get_or-replicate (suc n) (suc i) = get_or-replicate n i

-- A bitmap with its leftover bits marked: bit by bit.
module _ (nbits : ℕ) (small : nbits + 31 < 2 ^ 32) where
  abbrev pub last : ℕ
  last = words_for nbits - 1

  abbrev pub over : ℕ
  over = nbits - last * 32

  abbrev pub zeros : Bitmap
  zeros = record { nbits = nbits; v = none_used (words_for nbits) }

  abbrev pub filled : Bitmap
  filled = put_word zeros last (fill_from (32 - over) over 0)

  isset-zeros : (j : ℕ) → bitmap_isset zeros j ≡ false
  unfolding bitmap_isset
  isset-zeros j = rw (get_or-replicate (words_for nbits) (j / 32)) (test_bit-zero (j % 32))

  zeros-IsValid : nbits % 32 ≡ 0 → IsValid zeros
  zeros-IsValid whole = record {
    small = small;
    size = length-none_used (words_for nbits);
    words = λ i. rw (get_or-replicate (words_for nbits) i) (omega arith);
    rest = λ i lo hi. absurd (omega (arith, length-none_used (words_for nbits)));
  }

  shape : nbits % 32 ≢ 0 → (words_for nbits ≡ nbits / 32 + 1) × (over ≡ nbits % 32)
  shape part = omega arith

  isset-filled :
      nbits % 32 ≢ 0
      → (j : ℕ) → bitmap_isset filled j ≡ (leb nbits j && ltb j (32 * words_for nbits))
  unfolding bitmap_isset
  isset-filled part j =
      let room : last < length zeros.v = omega (arith, length-none_used (words_for nbits)) in
      elim (Bool-cases (last == j / 32)) [
        | inl same ↦
            rw
              (
                ← eq_of_test _ _ same,
                get_or-set_self zeros.v last (fill_from (32 - over) over 0) 0 room,
              )
              (ground (
                arith,
                test_bit-fill_from (32 - over) over 0 (j % 32),
                test_bit-zero (j % 32),
                eq_of_test _ _ same,
                shape part,
              ))
        | inr other ↦
            rw
              (get_or-set_ne zeros.v last (j / 32) (fill_from (32 - over) over 0) 0
                (ne_of_test _ _ other))
              (rw (get_or-replicate (words_for nbits) (j / 32), test_bit-zero (j % 32))
                (ground (arith, ne_of_test _ _ other, shape part)))
      ]

  pub filled-IsValid : nbits % 32 ≢ 0 → IsValid filled
  filled-IsValid part = record {
    small = small;
    size =
        rw (length-set zeros.v last (fill_from (32 - over) over 0))
          (length-none_used (words_for nbits));
    words = λ i. filled_word part i;
    rest = λ i lo hi. rw (isset-filled part i) (
        ground (
          arith,
          length-set zeros.v last (fill_from (32 - over) over 0),
          length-none_used (words_for nbits),
        ));
  }
    where
      filled_word : nbits % 32 ≢ 0 → (i : ℕ) → word filled i < 2 ^ 32
      filled_word part i = elim (Bool-cases (last == i)) [
        | inl same ↦
            rw
              (
                ← eq_of_test _ _ same,
                get_or-set_self zeros.v last (fill_from (32 - over) over 0) 0
                    (omega (arith, length-none_used (words_for nbits), part)),
              )
              (fill_from-lt (32 - over) over 0 (omega (arith, shape part)) (omega arith))
        | inr other ↦
            rw
              (
                get_or-set_ne zeros.v last i (fill_from (32 - over) over 0) 0
                    (ne_of_test _ _ other),
                get_or-replicate (words_for nbits) i,
              )
              (omega arith)
      ]

  -- With memory for it, and a size that leaves room for rounding up, `bitmap_create` fails no
  -- assertion and makes a valid bitmap of that size in which every slot is free.
  pub bitmap_create-IsValid :
      (b : Bitmap) × (bitmap_create true true nbits ≡ some (some b))
      × (b.nbits ≡ nbits)
      × IsValid b
      × ((j : ℕ) → j < nbits → bitmap_isset b j ≡ false)
  unfolding bitmap_create
  bitmap_create-IsValid = elim (Bool-cases (nbits % 32 == 0)) [
    | inl whole ↦
        let fits : ltb (nbits / 32) (words_for nbits) ≡ false =
          ground (arith, eq_of_test _ _ whole, small) in
        (zeros, rw fits refl, refl, zeros-IsValid (eq_of_test _ _ whole), λ j lt. isset-zeros j)
    | inr part ↦
        let p = ne_of_test _ _ part in
        let more : ltb (nbits / 32) (words_for nbits) ≡ true = ground (arith, shape p) in
        let at : (nbits / 32 == last) ≡ true = ground (arith, shape p) in
        let bits : (nbits + 2 ^ 32 - last * 32) % 2 ^ 32 ≡ over = omega (arith, shape p, small) in
        let lo : ltb 0 over ≡ true = ground (arith, shape p, p) in
        let hi : ltb over 32 ≡ true = ground (arith, shape p) in
        (
          filled,
          rw (more, at, bits, lo, hi, get_or-replicate (words_for nbits) last) refl,
          refl,
          filled-IsValid p,
          λ j lt. rw (isset-filled p j) (ground arith),
        )
  ]

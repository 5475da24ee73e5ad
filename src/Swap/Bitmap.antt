-- ===== src/Swap/Bitmap.antt =====
-- A3/swap.c: the bitmap that manages the slots of the swap file. `none` is a failed assertion.
pub mod Valid
pub mod Scan
pub mod Alloc
pub mod Create
pub mod Mark
use csc369_assignments.Prelude.{
  ℕ, zero, suc, ◌+◌, ◌-◌, ◌*◌, ◌/◌, ◌%◌, ◌^◌, Bool, true, false, not, ◌&&◌, Option, none, some,
  List, ltb, ◌==◌, if◌then◌else◌, get_or, set, replicate,
}
use csc369_assignments.Prelude.Word.{test_bit, set_bit, clear_bit}

-- `struct bitmap`; a word of `v` is an `unsigned`.
pub record Bitmap : Type 0 where
  pub nbits : ℕ
  pub v : List ℕ

abbrev pub bits_per_word : ℕ
bits_per_word = 32

abbrev pub word_allbits : ℕ
word_allbits = 0xffff_ffff

-- `DIVROUNDUP(nbits, BITS_PER_WORD)`, in unsigned arithmetic.
abbrev pub words_for : ℕ → ℕ
words_for nbits = (nbits + bits_per_word - 1) % 2 ^ 32 / bits_per_word

-- `b->v[ix]`
abbrev pub word : Bitmap → ℕ → ℕ
word b ix = get_or b.v ix 0

-- `for (j = overbits; j < BITS_PER_WORD; j++) w |= (unsigned)1 << j;` in `rounds` rounds.
unfoldable pub fill_from : ℕ → ℕ → ℕ → ℕ
fill_from zero j w = w
fill_from (suc rounds) j w = fill_from rounds (suc j) (set_bit w j)

-- The two flags say whether the calls of `malloc` succeed; `some none` is the null pointer.
unfoldable pub bitmap_create : Bool → Bool → ℕ → Option (Option Bitmap)
unfolding fill_from
bitmap_create has_struct has_words nbits =
    let words = words_for nbits in
    let v = replicate words 0 in
    let ix = words - 1 in
    let overbits = (nbits + 2 ^ 32 - ix * bits_per_word) % 2 ^ 32 in
    if not (has_struct && has_words)
    then some none
    else if ltb (nbits / bits_per_word) words
    then (if (nbits / bits_per_word == ix) && (ltb 0 overbits && ltb overbits bits_per_word)
        then some (
            some (record {
              nbits = nbits;
              v = set v ix (fill_from (bits_per_word - overbits) overbits (get_or v ix 0));
            }))
        else none)
    else some (some (record { nbits = nbits; v = v }))

-- The inner loop of `bitmap_alloc`: the first offset from `offset` on whose bit is clear.
unfoldable pub find_clear : ℕ → ℕ → ℕ → Option ℕ
find_clear zero offset w = none
find_clear (suc rounds) offset w =
    let rest = find_clear rounds (suc offset) w in if test_bit w offset then rest else some offset

-- The outer loop of `bitmap_alloc`, over the words from `ix` on. `some none` is the return of 1.
unfoldable pub alloc_from : ℕ → ℕ → Bitmap → Option (Option (ℕ × Bitmap))
alloc_from zero ix b = some none
alloc_from (suc rounds) ix b =
    let rest = alloc_from rounds (suc ix) b in
    if word b ix == word_allbits then rest else elim (find_clear bits_per_word 0 (word b ix)) [
      | none ↦ none
      | some offset ↦
          let index = ix * bits_per_word + offset in
          if ltb index b.nbits
          then some (some (index, record b { v = set b.v ix (set_bit (word b ix) offset) }))
          else none
    ]

unfoldable pub bitmap_alloc : Bitmap → Option (Option (ℕ × Bitmap))
bitmap_alloc b = alloc_from (words_for b.nbits) 0 b

-- `bitmap_isset`; `bitmap_translate` splits a bit number into a word and an offset.
unfoldable pub bitmap_isset : Bitmap → ℕ → Bool
bitmap_isset b index = test_bit (word b (index / bits_per_word)) (index % bits_per_word)

unfoldable pub bitmap_mark : Bitmap → ℕ → Option Bitmap
bitmap_mark b index =
    let ix = index / bits_per_word in
    if ltb index b.nbits && not (bitmap_isset b index)
    then some (record b { v = set b.v ix (set_bit (word b ix) (index % bits_per_word)) })
    else none

unfoldable pub bitmap_unmark : Bitmap → ℕ → Option Bitmap
bitmap_unmark b index =
    let ix = index / bits_per_word in
    if ltb index b.nbits && bitmap_isset b index
    then some (record b { v = set b.v ix (clear_bit (word b ix) (index % bits_per_word)) })
    else none

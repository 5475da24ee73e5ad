-- ===== src/Swap/Bitmap/Mark.antt =====
-- A3/swap.c: `bitmap_mark` and `bitmap_unmark` undo one another.
use csc369_assignments.Prelude.{
  ℕ, ◌/◌, ◌%◌, ◌<◌, ◌≡◌, refl, ap, Bool, true, false, some, ltb, ◌==◌, if◌then◌else◌, arith,
  test_of_eq, set, set_twice, set_same, get_or-set_self, length, ◌∙◌,
}
use csc369_assignments.Prelude.Word.{
  test_bit, set_bit, clear_bit, test_bit-set_bit, test_bit-clear_bit, set_bit-lt, clear_bit-le,
  clear_bit-set_bit, set_bit-clear_bit,
}
use csc369_assignments.Swap.Bitmap.{Bitmap, word, bitmap_isset, bitmap_mark, bitmap_unmark}
use csc369_assignments.Swap.Bitmap.Valid.{
  IsValid, isset-put_word, put_word-IsValid, word_in_range, put_word,
}

module _ (b : Bitmap) (i : ℕ) (ok : IsValid b) (inside : i < b.nbits) where
  abbrev ix : ℕ
  ix = i / 32

  abbrev marked : Bitmap
  marked = put_word b ix (set_bit (word b ix) (i % 32))

  abbrev unmarked : Bitmap
  unmarked = put_word b ix (clear_bit (word b ix) (i % 32))

  room : ix < length b.v
  room = word_in_range b i ok inside

  below : ltb i b.nbits ≡ true
  below = ground (arith, inside)

  restored : (w x : ℕ) → x ≡ word b ix → put_word (put_word b ix w) ix x ≡ b
  restored w x e =
      ap (λ l. record b { v = l }) (set_twice b.v ix w x ∙ ap (set b.v ix) e ∙ set_same b.v ix 0)

  isset_word : {x : Bool} → bitmap_isset b i ≡ x → test_bit (word b ix) (i % 32) ≡ x
  unfolding bitmap_isset
  isset_word e = e

  -- To mark a free slot of a valid bitmap marks that slot and no other, keeps the bitmap valid, and
  -- is undone by `bitmap_unmark`; no assertion fails.
  pub bitmap_unmark-bitmap_mark :
      bitmap_isset b i ≡ false
      → (b' : Bitmap) × (bitmap_mark b i ≡ some b')
        × ((j : ℕ) → bitmap_isset b' j ≡ (if i == j then true else bitmap_isset b j))
        × IsValid b'
        × (bitmap_unmark b' i ≡ some b)
  unfolding bitmap_mark bitmap_unmark
  bitmap_unmark-bitmap_mark free =
      let w = set_bit (word b ix) (i % 32) in
      let bit = test_bit-set_bit (word b ix) (i % 32) in
      let now = isset-put_word b i w true room bit in
      let back : clear_bit w (i % 32) ≡ word b ix =
        clear_bit-set_bit (word b ix) (i % 32) (isset_word free) in
      (
        marked,
        rw (below, free) refl,
        now,
        put_word-IsValid b i w true room bit inside
            (set_bit-lt 32 (word b ix) (i % 32) (omega arith) (ok.words ix)) ok,
        rw (below, now i, test_of_eq i i refl, get_or-set_self b.v ix w 0 room)
            (ap some (restored w (clear_bit w (i % 32)) back)),
      )

  -- To unmark a slot in use frees that slot and no other, keeps the bitmap valid, and is undone by
  -- `bitmap_mark`; no assertion fails.
  bitmap_mark-bitmap_unmark :
      bitmap_isset b i ≡ true
      → (b' : Bitmap) × (bitmap_unmark b i ≡ some b')
        × ((j : ℕ) → bitmap_isset b' j ≡ (if i == j then false else bitmap_isset b j))
        × IsValid b'
        × (bitmap_mark b' i ≡ some b)
  unfolding bitmap_mark bitmap_unmark
  bitmap_mark-bitmap_unmark used =
      let w = clear_bit (word b ix) (i % 32) in
      let bit = test_bit-clear_bit (word b ix) (i % 32) in
      let now = isset-put_word b i w false room bit in
      let back : set_bit w (i % 32) ≡ word b ix =
        set_bit-clear_bit (word b ix) (i % 32) (isset_word used) in
      (
        unmarked,
        rw (below, used) refl,
        now,
        put_word-IsValid b i w false room bit inside
            (omega (arith, clear_bit-le (word b ix) (i % 32), ok.words ix)) ok,
        rw (below, now i, test_of_eq i i refl, get_or-set_self b.v ix w 0 room)
            (ap some (restored w (set_bit w (i % 32)) back)),
      )

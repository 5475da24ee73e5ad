-- ===== src/Swap/Bitmap/Valid.antt =====
-- A3/swap.c: the invariant of a bitmap, and the writes of one bit that keep it.
use csc369_assignments.Prelude.{
  ℕ, ◌+◌, ◌*◌, ◌/◌, ◌%◌, ◌^◌, ◌≤◌, ◌<◌, ◌≡◌, refl, ◌≢◌, Bool, true, false, ◌==◌, if◌then◌else◌, set,
  length, length-set, get_or-set_self, get_or-set_ne, arith, Bool-cases, inl, inr, eq_of_test,
  ne_of_test,
}
use csc369_assignments.Prelude.Word.{test_bit}
use csc369_assignments.Swap.Bitmap.{Bitmap, words_for, word, bitmap_isset}

-- All words are there, none is out of range, and the bits from `nbits` on are marked.
pub record IsValid (b : Bitmap) : Type 0 where
  pub small : b.nbits + 31 < 2 ^ 32
  pub size : length b.v ≡ words_for b.nbits
  pub words : (i : ℕ) → word b i < 2 ^ 32
  pub rest : (i : ℕ) → b.nbits ≤ i → i < 32 * length b.v → bitmap_isset b i ≡ true

-- A write of one word.
abbrev pub put_word : Bitmap → ℕ → ℕ → Bitmap
put_word b ix w = record b { v = set b.v ix w }

word-put_word_self : (b : Bitmap) (ix w : ℕ) → ix < length b.v → word (put_word b ix w) ix ≡ w
word-put_word_self b ix w h = get_or-set_self b.v ix w 0 h

word-put_word_ne : (b : Bitmap) (ix w j : ℕ) → ix ≢ j → word (put_word b ix w) j ≡ word b j
word-put_word_ne b ix w j h = get_or-set_ne b.v ix j w 0 h

split_eq : (i j : ℕ) → i / 32 ≡ j / 32 → (i % 32 == j % 32) ≡ (i == j)
split_eq i j h = ground arith

-- A write of a word that changes one bit changes that bit of the bitmap alone.
module _ (b : Bitmap) (i w : ℕ) (x : Bool) (below : i / 32 < length b.v)
    (bit : (k : ℕ) → test_bit w k ≡ (if i % 32 == k then x else test_bit (word b (i / 32)) k)) where
  pub isset-put_word :
      (j : ℕ) → bitmap_isset (put_word b (i / 32) w) j ≡ (if i == j then x else bitmap_isset b j)
  unfolding bitmap_isset
  isset-put_word j = elim (Bool-cases (i / 32 == j / 32)) [
    | inl same ↦
        let e = eq_of_test _ _ same in
        rw (← e, word-put_word_self b (i / 32) w below, bit (j % 32), split_eq i j e) refl
    | inr other ↦
        let ne = ne_of_test _ _ other in
        let apart : (i == j) ≡ false = ground arith in
        rw (word-put_word_ne b (i / 32) w (j / 32) ne, apart) refl
  ]

  pub put_word-IsValid : i < b.nbits → w < 2 ^ 32 → IsValid b → IsValid (put_word b (i / 32) w)
  put_word-IsValid inside small ok = record {
    small = ok.small;
    size = rw (length-set b.v (i / 32) w) ok.size;
    words = λ j. elim (Bool-cases (i / 32 == j)) [
      | inl same ↦ rw (← eq_of_test _ _ same, word-put_word_self b (i / 32) w below) small
      | inr other ↦ rw (word-put_word_ne b (i / 32) w j (ne_of_test _ _ other)) (ok.words j)
    ];
    rest = λ j lo hi.
        let apart : (i == j) ≡ false = ground arith in
        rw (isset-put_word j, apart) (ok.rest j lo (rw (length-set b.v (i / 32) w) at hi));
  }

pub word_in_range : (b : Bitmap) (i : ℕ) → IsValid b → i < b.nbits → i / 32 < length b.v
word_in_range b i ok h = omega (arith, ok.small, ok.size)

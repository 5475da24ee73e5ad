-- ===== src/Swap/Tests.antt =====
-- A3/swap.c: the theorems at concrete bitmaps.
use csc369_assignments.Prelude.{
  ℕ, ◌<◌, ◌≡◌, refl, ◌⊎◌, true, false, none, some, [], ◌∷◌, ◌==◌, if◌then◌else◌, arith,
}
use csc369_assignments.Swap.Bitmap.{
  Bitmap, bitmap_create, bitmap_alloc, bitmap_isset, bitmap_mark, bitmap_unmark, fill_from,
}
use csc369_assignments.Swap.Bitmap.Valid.{IsValid, put_word-IsValid}
use csc369_assignments.Swap.Bitmap.Alloc.{IsAlloc, bitmap_alloc_lem}
use csc369_assignments.Swap.Bitmap.Create.{bitmap_create-IsValid, filled-IsValid}
use csc369_assignments.Swap.Bitmap.Mark.{bitmap_unmark-bitmap_mark}
use csc369_assignments.Prelude.Word.{set_bit, test_bit, test_bit-set_bit}

-- 40 slots: the words 0 and 0xffffff00.
abbrev fresh : Bitmap
fresh = record { nbits = 40; v = 0 ∷ 0xffff_ff00 ∷ [] }

create_40 : bitmap_create true true 40 ≡ some (some fresh)
unfolding bitmap_create set_bit
create_40 = refl

bitmap_create-IsValid_example :
    (b : Bitmap) × (bitmap_create true true 40 ≡ some (some b))
    × (b.nbits ≡ 40)
    × IsValid b
    × ((j : ℕ) → j < 40 → bitmap_isset b j ≡ false)
bitmap_create-IsValid_example = bitmap_create-IsValid 40 (omega arith)

fresh-IsValid : IsValid fresh
unfolding fill_from set_bit
fresh-IsValid = filled-IsValid 40 (omega arith) (omega arith)

-- The same with slot 7 in use.
abbrev taken : Bitmap
taken = record { nbits = 40; v = 0x80 ∷ 0xffff_ff00 ∷ [] }

mark_7 : bitmap_mark fresh 7 ≡ some taken
unfolding bitmap_mark bitmap_isset test_bit set_bit
mark_7 = refl

bitmap_alloc_lem_example :
    ((bitmap_alloc fresh ≡ some none) × ((j : ℕ) → j < 40 → bitmap_isset fresh j ≡ true))
    ⊎ ((i : ℕ) × (b' : Bitmap) × (bitmap_alloc fresh ≡ some (some (i, b'))) × IsAlloc fresh i b')
bitmap_alloc_lem_example = bitmap_alloc_lem fresh fresh-IsValid

bitmap_unmark-bitmap_mark_example :
    (b' : Bitmap) × (bitmap_mark fresh 7 ≡ some b')
    × ((j : ℕ) → bitmap_isset b' j ≡ (if 7 == j then true else bitmap_isset fresh j))
    × IsValid b'
    × (bitmap_unmark b' 7 ≡ some fresh)
unfolding bitmap_isset test_bit
bitmap_unmark-bitmap_mark_example =
    bitmap_unmark-bitmap_mark fresh 7 fresh-IsValid (omega arith) refl

taken-IsValid : IsValid taken
unfolding bitmap_isset test_bit set_bit
taken-IsValid =
    put_word-IsValid fresh 7 (set_bit 0 7) true (omega arith) (test_bit-set_bit 0 7) (omega arith)
      (omega arith) fresh-IsValid

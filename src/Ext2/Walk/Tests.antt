-- ===== src/Ext2/Walk/Tests.antt =====
-- A4/ext2_utils.c: the theorems about paths at a short one.
use csc369_assignments.Prelude.{ℕ, ◌≡◌, ◌==◌, if◌then◌else◌, refl, some, none, List, [], ◌∷◌, arith}
use csc369_assignments.Ext2.Names.{dir_type}
use csc369_assignments.Ext2.Entries.{minus_one}
use csc369_assignments.Ext2.Entries.Search.{clash, is_type, AllSkip, find_inode_in_blocks_lem}
use csc369_assignments.Ext2.Paths.{join}
use csc369_assignments.Ext2.Walk.{
  Heap, with_tails, open_path, verify_path, verify_from, walk, find_in_inode, inode_at,
}
use csc369_assignments.Ext2.Walk.Names.{open_path-join, verify_path-misses_last}
use csc369_assignments.Ext2.Samples.{
  dot, file_a, small_disk, small_disk-Layout, one_block, image_of,
}

abbrev name_b : List ℕ
name_b = b'b' ∷ []

-- A `!` stands behind the string of the second name, and nothing else is changed.
abbrev marked : Heap
marked = record { copy_tail = []; name_tail = λ k. if k == 1 then b'!' ∷ [] else [] }

-- `/b/.a`
open_path-join_example :
    open_path marked (join ((b'b' ∷ []) ∷ (b'.' ∷ b'a' ∷ []) ∷ []))
    ≡ some (name_b ∷ [], b'.' ∷ b'a' ∷ b'!' ∷ [])
unfolding with_tails
open_path-join_example =
    open_path-join marked (name_b ∷ []) (b'.' ∷ b'a' ∷ [])
      (omega arith, refl, (omega arith, refl, tt)) refl

name_b-AllSkip : AllSkip name_b b'd' (dot ∷ file_a ∷ [])
unfolding clash is_type dir_type
name_b-AllSkip = (refl, (refl, tt))

lost_b : find_in_inode 1 12 name_b b'd' (image_of small_disk) ≡ some minus_one
unfolding find_in_inode inode_at
lost_b =
    (find_inode_in_blocks_lem small_disk (one_block 9) 0 12 name_b b'd' (dot ∷ file_a ∷ [])
        (omega arith) (omega arith) (λ j lt. absurd (omega arith)) refl small_disk-Layout).1
      name_b-AllSkip

nothing_to_verify :
    (verify_path [] (image_of small_disk) ≡ some 0) × (walk 12 [] 1 (image_of small_disk) ≡ some 1)
unfolding verify_path verify_from walk
nothing_to_verify = (refl, refl)

verify_path-misses_last_example :
    (verify_path (name_b ∷ []) (image_of small_disk) ≡ some 0)
    × (walk 12 (name_b ∷ []) 1 (image_of small_disk) ≡ some minus_one)
    × ((limit type : ℕ) (file : List ℕ)
        → find_in_inode minus_one limit file type (image_of small_disk) ≡ none)
verify_path-misses_last_example =
    verify_path-misses_last [] name_b 1 (image_of small_disk) nothing_to_verify.0
      nothing_to_verify.1 (omega arith) lost_b

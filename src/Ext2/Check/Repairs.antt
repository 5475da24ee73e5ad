-- ===== src/Ext2/Check/Repairs.antt =====
-- A4/ext2_checker.c: what a repair of `inode_all_check` changes.
use csc369_assignments.Prelude.{
  ℕ, ◌+◌, ◌-◌, ◌≤◌, ◌<◌, ◌≡◌, refl, ◌∙◌, Bool, true, false, not, ◌&&◌, List, [], ◌∷◌, length, ◌==◌,
  if◌then◌else◌, update, arith, Bool-cases, inl, inr,
}
use csc369_assignments.Prelude.Count.{count, count_update}
use csc369_assignments.Ext2.Names.{dir_type}
use csc369_assignments.Ext2.Bitmaps.{bit_at}
use csc369_assignments.Ext2.Marks.{bit_at-update_bitmap}
use csc369_assignments.Ext2.Paths.{first_char}
use csc369_assignments.Ext2.Image.{count_inode, mark_inode}
use csc369_assignments.Ext2.Entries.Layout.{Entry}
use csc369_assignments.Ext2.Check.{CheckState}

-- The name begins with a dot.
abbrev pub dotted : Entry → Bool
dotted e = first_char e.name == b'.'

-- An entry with a name and an inode, which is no directory unless its name begins with a dot.
abbrev pub IsFlat : Entry → Type 0
IsFlat e =
    (0 < length e.name)
    × (0 < e.inode)
    × (e.inode ≤ 32)
    × ((dir_type e.file_type == b'd') && not (dotted e) ≡ false)

abbrev pub AllFlat : List Entry → Type 0
AllFlat [] = Unit {0}
AllFlat (e ∷ es) = IsFlat e × AllFlat es

-- The repair at an entry.
unfoldable pub mark_entry : Entry → CheckState → CheckState
mark_entry e s =
    if dotted e
    then s
    else if s.image.inode_bitmap (e.inode - 1) == 0
    then record { image = count_inode (mark_inode (e.inode - 1) s.image); total = s.total + 1 }
    else s

-- The inodes that the array gives as free.
abbrev pub free_inodes : CheckState → ℕ
free_inodes s = count 32 (λ i. s.image.inode_bitmap i == 0)

-- The array agrees with the disk.
abbrev pub Agrees : CheckState → Type 0
Agrees s = (k : ℕ) → bit_at s.image.inode_bits k ≡ not (s.image.inode_bitmap k == 0)

-- What the repairs from one state to a later one have done.
pub record Repaired (s s' : CheckState) : Type 0 where
  pub kept :
      (k : ℕ) → (s.image.inode_bitmap k == 0) ≡ false → (s'.image.inode_bitmap k == 0) ≡ false
  pub agrees : Agrees s → Agrees s'
  pub counted : s'.total + free_inodes s' ≡ s.total + free_inodes s
  pub disk_stays : s'.image.disk ≡ s.image.disk
  pub inodes_stay : s'.image.inodes ≡ s.image.inodes
  pub blocks_stay :
      (s'.image.block_bitmap ≡ s.image.block_bitmap) × (s'.image.block_bits ≡ s.image.block_bits)

pub Repaired-refl : (s : CheckState) → Repaired s s
Repaired-refl s = record {
  kept = λ k h. h;
  agrees = λ h. h;
  counted = refl;
  disk_stays = refl;
  inodes_stay = refl;
  blocks_stay = (refl, refl);
}

pub Repaired-trans : (s s1 s2 : CheckState) → Repaired s s1 → Repaired s1 s2 → Repaired s s2
Repaired-trans s s1 s2 a b = record {
  kept = λ k h. b.kept k (a.kept k h);
  agrees = λ h. b.agrees (a.agrees h);
  counted = b.counted ∙ a.counted;
  disk_stays = b.disk_stays ∙ a.disk_stays;
  inodes_stay = b.inodes_stay ∙ a.inodes_stay;
  blocks_stay = (b.blocks_stay.0 ∙ a.blocks_stay.0, b.blocks_stay.1 ∙ a.blocks_stay.1);
}

pub Repaired-mark_entry : (e : Entry) (s : CheckState) → IsFlat e → Repaired s (mark_entry e s)
unfolding mark_entry mark_inode count_inode
Repaired-mark_entry e s (named, lo, hi, flat) = elim (Bool-cases (dotted e)) [
  | inl dot ↦ rw dot (Repaired-refl s)
  | inr file ↦ elim (Bool-cases (s.image.inode_bitmap (e.inode - 1) == 0)) [
    | inr used ↦ rw (file, used) (Repaired-refl s)
    | inl free ↦
        rw (file, free)
          (record {
            kept = λ k h. ground arith;
            agrees = λ h k.
                bit_at-update_bitmap s.image.inode_bits (e.inode - 1) k ∙ ground (arith, h k);
            counted =
                let fewer =
                  count_update 32 (e.inode - 1) (λ i. s.image.inode_bitmap i == 0)
                    (λ i. update s.image.inode_bitmap (e.inode - 1) 1 i == 0) (omega arith) free
                    (λ i. ground arith) in
                omega (arith, fewer);
            disk_stays = refl;
            inodes_stay = refl;
            blocks_stay = (refl, refl);
          })
  ]
]

pub mark_entry-dotted : (e : Entry) (s : CheckState) → dotted e ≡ true → mark_entry e s ≡ s
unfolding mark_entry
mark_entry-dotted e s dot = rw dot refl

pub mark_entry-marks :
    (e : Entry) (s : CheckState)
    → dotted e ≡ false
    → ((mark_entry e s).image.inode_bitmap (e.inode - 1) == 0) ≡ false
unfolding mark_entry mark_inode count_inode
mark_entry-marks e s file = ground arith

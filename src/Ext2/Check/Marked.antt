-- ===== src/Ext2/Check/Marked.antt =====
-- A4/ext2_checker.c: what `inode_all_check` does in a directory of files.
use csc369_assignments.Prelude.{
  ℕ, zero, suc, ◌+◌, ◌*◌, ◌-◌, ◌<◌, ◌≡◌, refl, ◌∙◌, Option, some, true, false, List, [], ◌∷◌,
  length, ◌==◌, arith, Bool-cases, inl, inr,
}
use csc369_assignments.Ext2.Disk.{Disk}
use csc369_assignments.Ext2.Names.{dir_type}
use csc369_assignments.Ext2.Paths.{first_char}
use csc369_assignments.Ext2.Image.{count_inode, mark_inode}
use csc369_assignments.Ext2.Entries.{starts_with}
use csc369_assignments.Ext2.Entries.Layout.{Entry, Holds, NameAt, Layout, Layout-length}
use csc369_assignments.Ext2.Check.{
  CheckState, Visit, is_dot, each_entry, fix_inode, walk_blocks, inode_all_check,
}
use csc369_assignments.Ext2.Check.Repairs.{
  dotted, IsFlat, AllFlat, mark_entry, Repaired, Repaired-refl, Repaired-trans, Repaired-mark_entry,
  mark_entry-dotted, mark_entry-marks,
}

first_at :
    (disk : Disk) (a : ℕ) (name : List ℕ)
    → NameAt disk a name
    → 0 < length name
    → disk a ≡ first_char name
first_at disk a [] at long = absurd (omega arith)
first_at disk a (c ∷ name) (here, at) long = here

is_dot-run :
    (disk : Disk) (a : ℕ) (e : Entry)
    → Holds disk a e
    → 0 < length e.name
    → is_dot disk a ≡ dotted e
unfolding is_dot starts_with
is_dot-run disk a e h long = rw (first_at disk (a + 8) e.name h.name_at long) (ground arith)

fix_inode-run :
    (visit : Visit) (a : ℕ) (e : Entry) (s : CheckState)
    → Holds s.image.disk a e
    → IsFlat e
    → dotted e ≡ false
    → fix_inode visit a s ≡ some (mark_entry e s)
unfolding fix_inode mark_entry mark_inode count_inode
fix_inode-run visit a e s h (named, lo, hi, flat) file =
    let plain : (dir_type e.file_type == b'd') ≡ false = ground arith in
    elim (Bool-cases (s.image.inode_bitmap (e.inode - 1) == 0)) [
      | inl free ↦ rw (h.inode_at, free, file, h.file_type_at, plain) refl
      | inr used ↦ rw (h.inode_at, used, file, h.file_type_at, plain) refl
    ]

module _ (visit : Visit) (block_num : ℕ) where
  entry_run :
      (fuel off : ℕ) (e : Entry) (es : List Entry) (s : CheckState)
      → Layout s.image.disk block_num off (e ∷ es)
      → IsFlat e
      → each_entry (suc fuel) (fix_inode visit) block_num off s
        ≡ each_entry fuel (fix_inode visit) block_num (off + e.rec_len) (mark_entry e s)
  unfolding each_entry
  entry_run fuel off e es s (h, fit, below, rest) flat =
      let a = 1024 * block_num + off in
      let start : (off == 1024) ≡ false = ground (arith, flat.0) in
      let there : (e.inode == 0) ≡ false = ground (arith, flat.1) in
      let stays = (Repaired-mark_entry e s flat).disk_stays in
      elim (Bool-cases (dotted e)) [
        | inl dot ↦
            let same : mark_entry e s ≡ s = mark_entry-dotted e s dot in
            rw
              (
                start,
                each_entry,
                h.inode_at,
                there,
                is_dot-run s.image.disk a e h flat.0,
                dot,
                same,
              )
              (rw h.rec_len_at refl)
        | inr file ↦
            rw
              (
                start,
                each_entry,
                h.inode_at,
                there,
                is_dot-run s.image.disk a e h flat.0,
                file,
                fix_inode-run visit a e s h flat file,
              )
              (rw (stays, h.rec_len_at) refl)
      ]

-- The inodes of the entries are not free, but for those with a name that begins with a dot.
abbrev pub AllMarked : List Entry → CheckState → Type 0
AllMarked [] s = Unit {0}
AllMarked (e ∷ es) s =
    (dotted e ≡ false → (s.image.inode_bitmap (e.inode - 1) == 0) ≡ false) × AllMarked es s

entries_run :
    (visit : Visit) (block_num : ℕ) (es : List Entry) (fuel off : ℕ) (s : CheckState)
    → length es < fuel
    → Layout s.image.disk block_num off es
    → AllFlat es
    → (s' : CheckState) × (each_entry fuel (fix_inode visit) block_num off s ≡ some s')
      × Repaired s s'
      × AllMarked es s'
unfolding each_entry
entries_run visit block_num es zero off s enough layout flat = absurd (omega arith)
entries_run visit block_num [] (suc fuel) off s enough end flat =
    (s, rw (end, each_entry) refl, Repaired-refl s, tt)
entries_run visit block_num (e ∷ es) (suc fuel) off s enough layout (f, flat) =
    let s1 = mark_entry e s in
    let one = Repaired-mark_entry e s f in
    let rest : Layout s1.image.disk block_num (off + e.rec_len) es = rw one.disk_stays layout.3 in
    let (s', run, repaired, marked) =
      entries_run visit block_num es fuel (off + e.rec_len) s1 (omega arith) rest flat in
    (
      s',
      entry_run visit block_num fuel off e es s layout f ∙ run,
      Repaired-trans s s1 s' one repaired,
      (λ file. repaired.kept (e.inode - 1) (mark_entry-marks e s file), marked),
    )

walk_blocks-run :
    (act : Visit → ℕ → CheckState → Option CheckState) (fuel : ℕ) (table : ℕ → ℕ)
    (s s' : CheckState)
    → (table 0 == 0) ≡ false
    → (table 1 == 0) ≡ true
    → each_entry 1025 (act (λ t. walk_blocks (suc fuel) act 0 0 t 0)) (table 0) 0 s ≡ some s'
    → walk_blocks (suc (suc fuel)) act 0 0 table 0 s ≡ some s'
unfolding walk_blocks
walk_blocks-run act fuel table s s' used end run =
    let e : table 0 + 0 ≡ table 0 = omega arith in rw (used, walk_blocks, e, run, end) refl

-- In a directory of one block that has files and no other directories, `inode_all_check` ends, and
-- then every inode of an entry is marked, but for those of names that begin with a dot. No mark is
-- lost, the array agrees with the disk if it did before, the number of repairs grows by as much as
-- the number of free inodes falls, and directories, inodes and block bitmap stay.
pub inode_all_check_lem :
    (fuel : ℕ) (table : ℕ → ℕ) (es : List Entry) (s : CheckState)
    → (table 0 == 0) ≡ false
    → (table 1 == 0) ≡ true
    → Layout s.image.disk (table 0) 0 es
    → AllFlat es
    → (s' : CheckState) × (inode_all_check (suc (suc fuel)) table s ≡ some s')
      × Repaired s s'
      × AllMarked es s'
unfolding inode_all_check
inode_all_check_lem fuel table es s used end layout flat =
    let size = Layout-length s.image.disk (table 0) 0 es layout in
    let (s', run, repaired, marked) =
      entries_run (λ t. walk_blocks (suc fuel) fix_inode 0 0 t 0) (table 0) es 1025 0 s
        (omega arith) layout flat in
    (s', walk_blocks-run fix_inode fuel table s s' used end run, repaired, marked)

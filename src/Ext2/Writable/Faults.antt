-- ===== src/Ext2/Writable/Faults.antt =====
-- A4/ext2_utils.c: where `get_writable_block` goes wrong.
use csc369_assignments.Prelude.{
  ℕ, zero, suc, ◌+◌, ◌*◌, ◌-◌, ◌%◌, ◌^◌, ◌≤◌, ◌<◌, ◌≡◌, refl, ap, ◌∙◌, inl, inr, some, true, false,
  leb, ◌==◌, List, [], ◌∷◌, ◌++◌, length, length-append, arith, Bool-cases,
}
use csc369_assignments.Ext2.Disk.{Disk, write16}
use csc369_assignments.Ext2.Bitmaps.{allocate_block}
use csc369_assignments.Ext2.Entries.{fill_entry, append_entry, write_ent_loop, write_ent_to_block}
use csc369_assignments.Ext2.Entries.Layout.{
  Entry, Holds, Layout, need, calc_rec_len_div4-need, Layout-append_lt, Layout-length,
}
use csc369_assignments.Ext2.Entries.Write.{IsEntry, fill_entry-Holds}
use csc369_assignments.Ext2.Entries.Append.{Holds-write16}
use csc369_assignments.Ext2.Image.{Image, of_inode, load_block, store_block, take_bits, count_block}
use csc369_assignments.Ext2.Writable.{has_space, add_direct, get_writable_from, get_writable_block}

-- The loop looks at the last entry of the block.
has_space_lem :
    (es : List Entry) (last : Entry) (fuel off block_num n : ℕ) (disk : Disk)
    → length es + 1 < fuel
    → Layout disk block_num off (es ++ last ∷ [])
    → has_space fuel disk block_num off n ≡ some (leb n last.rec_len)
unfolding has_space
has_space_lem es last zero off block_num n disk enough layout = absurd (omega arith)
has_space_lem [] last (suc zero) off block_num n disk enough layout = absurd (omega arith)
has_space_lem [] last (suc (suc fuel)) off block_num n disk enough (h, fit, below, end) =
    let start : (off == 1024) ≡ false = ground arith in
    let last_one : (last.rec_len + off == 1024) ≡ true = ground arith in
    elim (Bool-cases (leb n last.rec_len)) [
      | inl fits ↦ rw (start, h.rec_len_at, last_one, fits) refl
      | inr small ↦ rw (start, h.rec_len_at, last_one, small, end) refl
    ]
has_space_lem (x ∷ es) last (suc fuel) off block_num n disk enough (h, fit, below, rest) =
    let next = off + x.rec_len in
    let inner : next < 1024 = Layout-append_lt disk block_num next es last [] rest in
    let start : (off == 1024) ≡ false = ground arith in
    let more : (x.rec_len + off == 1024) ≡ false = ground arith in
    rw (start, h.rec_len_at, more)
      (has_space_lem es last fuel next block_num n disk (omega arith) rest)

module _ (dir n : ℕ) (m : Image) (es : List Entry) (last : Entry)
    (one : (load_block (of_inode dir) 1 m == 0) ≡ true)
    (layout : Layout m.disk (load_block (of_inode dir) 0 m) 0 (es ++ last ∷ [])) where
  abbrev block : ℕ
  block = load_block (of_inode dir) 0 m

  space_run : has_space 1025 m.disk block 0 n ≡ some (leb n last.rec_len)
  space_run =
      let size = Layout-length m.disk block 0 (es ++ last ∷ []) layout in
      has_space_lem es last 1025 0 block n m.disk (omega (arith, length-append es (last ∷ [])))
        layout

  pub writable_space :
      (fuel limit : ℕ)
      → n ≤ last.rec_len
      → get_writable_from (suc fuel) (of_inode dir) n 0 limit m
        ≡ some ((block + 2 ^ 32 - 1) % 2 ^ 32, m)
  unfolding get_writable_from
  writable_space fuel limit fits =
      let e : leb n last.rec_len ≡ true = ground arith in
      rw (one, space_run, e, get_writable_from) refl

  writable_full :
      (fuel : ℕ)
      → last.rec_len < n
      → get_writable_from (suc fuel) (of_inode dir) n 0 12 m ≡ add_direct (of_inode dir) 0 m
  unfolding get_writable_from
  writable_full fuel full =
      let e : leb n last.rec_len ≡ false = ground arith in
      rw (one, space_run, e, get_writable_from) refl

module _ (block_num : ℕ) (last : Entry) (inode file_type : ℕ) (name : List ℕ) where
  -- The new entry with nothing left for it.
  abbrev pub stray : Entry
  stray = record { inode = inode; rec_len = 0; file_type = file_type; name = name }

  module _ (entry : IsEntry stray) (full : last.rec_len ≡ need (length last.name)) where
    append_entry-stray :
        (disk : Disk) (off : ℕ)
        → Holds disk (1024 * block_num + off) last
        → off + last.rec_len ≡ 1024
        → (disk' : Disk) × (append_entry block_num off inode (length name) file_type name disk
            ≡ some disk')
          × Holds disk' (1024 * (block_num + 1)) stray
    unfolding append_entry
    append_entry-stray disk off h end =
        let a = 1024 * block_num + off in
        let n = need (length last.name) in
        let cut = write16 disk (a + 4) n in
        let held = Holds-write16 disk a n last (omega arith) h in
        let place : a + n ≡ 1024 * (block_num + 1) = omega arith in
        let size : (1024 + 2 ^ 16 - (off + n)) % 2 ^ 16 ≡ 0 = omega arith in
        (
          fill_entry (a + n) inode 0 (length name) file_type name cut,
          rw
              (
                h.name_len_at,
                calc_rec_len_div4-need (length last.name),
                append_entry,
                held.rec_len_at,
                size,
              )
              refl,
          rw (← place) (fill_entry-Holds (a + n) stray cut entry),
        )

    write_ent_loop-stray :
        (es : List Entry) (fuel off : ℕ) (disk : Disk)
        → length es < fuel
        → Layout disk block_num off (es ++ last ∷ [])
        → (disk' : Disk) × (write_ent_loop fuel block_num off inode
              (length name)
              file_type
              name
              disk
            ≡ some disk')
          × Holds disk' (1024 * (block_num + 1)) stray
    unfolding write_ent_loop
    write_ent_loop-stray es zero off disk enough layout = absurd (omega arith)
    write_ent_loop-stray [] (suc fuel) off disk enough (h, fit, below, end) =
        let (disk', e, r) = append_entry-stray disk off h end in
        let start : (off == 1024) ≡ false = ground arith in
        let last_one : (last.rec_len + off == 1024) ≡ true = ground arith in
        (disk', rw (start, h.rec_len_at, last_one) e, r)
    write_ent_loop-stray (x ∷ es) (suc fuel) off disk enough (h, fit, below, rest) =
        let next = off + x.rec_len in
        let inner : next < 1024 = Layout-append_lt disk block_num next es last [] rest in
        let start : (off == 1024) ≡ false = ground arith in
        let more : (x.rec_len + off == 1024) ≡ false = ground arith in
        let (disk', e, r) = write_ent_loop-stray es fuel next disk (omega arith) rest in
        (disk', rw (start, h.rec_len_at, more) e, r)

-- Where the only block of a directory is full, its last entry being no longer than it needs, and
-- the name of a new entry does not need more, `get_writable_block` still offers this block, and
-- `write_ent_to_block` then writes the new entry, with the length 0, to the start of the next one.
pub get_writable_block-overruns :
    (dir inode file_type : ℕ) (name : List ℕ) (es : List Entry) (last : Entry) (m : Image)
    → (load_block (of_inode dir) 1 m == 0) ≡ true
    → Layout m.disk (load_block (of_inode dir) 0 m) 0 (es ++ last ∷ [])
    → last.rec_len ≡ need (length last.name)
    → need (length name) ≤ last.rec_len
    → IsEntry (stray (load_block (of_inode dir) 0 m) last inode file_type name)
    → 0 < load_block (of_inode dir) 0 m
    → load_block (of_inode dir) 0 m < 2 ^ 32
    → (disk' : Disk) × (get_writable_block (of_inode dir) (need (length name)) 0 12 m
        ≡ some (load_block (of_inode dir) 0 m - 1, m))
      × (write_ent_to_block
            (load_block (of_inode dir) 0 m)
            inode
            (length name)
            file_type
            name
            m.disk
          ≡ some disk')
      × Holds disk'
          (1024 * (load_block (of_inode dir) 0 m + 1))
          (stray (load_block (of_inode dir) 0 m) last inode file_type name)
unfolding write_ent_to_block
get_writable_block-overruns dir inode file_type name es last m one layout full short entry positive
      small =
    let b = load_block (of_inode dir) 0 m in
    let size = Layout-length m.disk b 0 (es ++ last ∷ []) layout in
    let (disk', e, r) =
      write_ent_loop-stray b last inode file_type name entry full es 1025 0 m.disk
        (omega (arith, length-append es (last ∷ []))) layout in
    let number : (b + 2 ^ 32 - 1) % 2 ^ 32 ≡ b - 1 = omega arith in
    (
      disk',
      writable_space dir (need (length name)) m es last one layout 999 12 short
          ∙ ap (λ (k : ℕ). some (k, m)) number,
      e,
      r,
    )

-- Where the last entry of the only block of a directory is shorter than the new one, a free block
-- is taken and counted, and its number less 1 is put into the table of the directory: the
-- block that the caller writes to, whose number is 1 more than the result, is not the one in the
-- table.
pub get_writable_block-misplaces :
    (dir n k : ℕ) (es : List Entry) (last : Entry) (m : Image) (bits : ℕ → ℕ)
    → (load_block (of_inode dir) 1 m == 0) ≡ true
    → Layout m.disk (load_block (of_inode dir) 0 m) 0 (es ++ last ∷ [])
    → last.rec_len < n
    → allocate_block m.block_bitmap m.block_bits ≡ some (k, bits)
    → k < 2 ^ 32
    → (m' : Image) × (get_writable_block (of_inode dir) n 0 12 m ≡ some (k, m'))
      × (load_block (of_inode dir) 1 m' ≡ k)
      × (m'.block_bitmap k ≡ 1)
      × (m'.block_bits ≡ bits)
      × (m'.disk ≡ m.disk)
unfolding add_direct store_block load_block count_block take_bits
get_writable_block-misplaces dir n k es last m bits one layout longer free small =
    let m1 = count_block k (record m { block_bits = bits }) in
    let m' = store_block (of_inode dir) 1 k m1 in
    (
      m',
      writable_full dir n m es last one layout 999 longer ∙ rw (free, take_bits, add_direct) refl,
      ground arith,
      ground arith,
      refl,
      refl,
    )

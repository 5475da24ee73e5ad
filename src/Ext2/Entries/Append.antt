-- ===== src/Ext2/Entries/Append.antt =====
-- A4/ext2_utils.c: what `write_ent_to_block` does to the entries of a block.
use csc369_assignments.Prelude.{
  ℕ, zero, suc, ◌+◌, ◌*◌, ◌-◌, ◌%◌, ◌^◌, ◌≤◌, ◌<◌, ◌≡◌, refl, ◌∙◌, inl, inr, true, false, some,
  List, [], ◌∷◌, ◌++◌, length, length-append, ◌==◌, arith,
}
use csc369_assignments.Ext2.Disk.{Disk, Outside, write16, write16_ne, read16-write16, read32-keep}
use csc369_assignments.Ext2.Entries.{fill_entry, append_entry, write_ent_loop, write_ent_to_block}
use csc369_assignments.Ext2.Entries.Layout.{
  Entry, Holds, Layout, need, NameAt-keep, Holds-keep, calc_rec_len_div4-need, Layout-append_lt,
  Layout-length,
}
use csc369_assignments.Ext2.Entries.Write.{IsEntry, AllBytes, fill_entry_ne, fill_entry-Holds}

-- An entry whose length alone is written over.
pub Holds-write16 :
    (disk : Disk) (a r : ℕ) (e : Entry)
    → r < 65536
    → Holds disk a e
    → Holds (write16 disk (a + 4) r) a (record e { rec_len = r })
Holds-write16 disk a r e small h =
    let same = λ (x : ℕ) (out : Outside (a + 4) 2 x). write16_ne disk (a + 4) r x out in
    record {
      inode_at =
          read32-keep disk (write16 disk (a + 4) r) a (λ x lo hi. same x (inl (omega arith)))
          ∙ h.inode_at;
      rec_len_at = read16-write16 disk (a + 4) r small;
      name_len_at = same (a + 6) (inr (omega arith)) ∙ h.name_len_at;
      file_type_at = same (a + 7) (inr (omega arith)) ∙ h.file_type_at;
      name_at =
          NameAt-keep disk (write16 disk (a + 4) r) e.name (a + 8)
            (λ x lo hi. same x (inr (omega arith))) h.name_at;
    }

-- What is asked of a new entry: its parts fit, and the last entry of the block leaves room for it.
pub record HasRoom (last : Entry) (inode file_type : ℕ) (name : List ℕ) : Type 0 where
  pub inode_fits : inode < 4294967296
  pub name_len_fits : length name < 256
  pub file_type_fits : file_type < 256
  pub name_fits : AllBytes name
  pub room : need (length last.name) + need (length name) ≤ last.rec_len

module _ (last : Entry) (inode file_type : ℕ) (name : List ℕ) where
  -- The last entry cut to its length, and the new one after it.
  abbrev pub cut_entry : Entry
  cut_entry = record last { rec_len = need (length last.name) }

  abbrev pub new_entry : Entry
  new_entry = record {
    inode = inode;
    rec_len = last.rec_len - need (length last.name);
    file_type = file_type;
    name = name;
  }

module _ (block_num : ℕ) (last : Entry) (inode file_type : ℕ) (name : List ℕ)
    (fits : HasRoom last inode file_type name) where
  abbrev Appended : ℕ → List Entry → Disk → Disk → Type 0
  Appended off es disk disk' =
      Layout disk' block_num off
        (es ++ cut_entry last inode file_type name ∷ new_entry last inode file_type name ∷ [])
      × ((x : ℕ) → Outside (1024 * block_num + off) (1024 - off) x → disk' x ≡ disk x)

  append_entry_lem :
      (disk : Disk) (off : ℕ)
      → Holds disk (1024 * block_num + off) last
      → off + last.rec_len ≡ 1024
      → (disk' : Disk) × (append_entry block_num off inode (length name) file_type name disk
          ≡ some disk')
        × Appended off [] disk disk'
  unfolding append_entry
  append_entry_lem disk off h end =
      let a = 1024 * block_num + off in
      let n = need (length last.name) in
      let new = new_entry last inode file_type name in
      let cut = write16 disk (a + 4) n in
      let small : n < 65536 = omega (arith, fits.room) in
      let held = Holds-write16 disk a n last small h in
      let disk' = fill_entry (a + n) inode new.rec_len (length name) file_type name cut in
      let entry : IsEntry new = record {
        inode_fits = fits.inode_fits;
        rec_len_fits = omega arith;
        name_len_fits = fits.name_len_fits;
        file_type_fits = fits.file_type_fits;
        name_fits = fits.name_fits;
      } in
      let out = λ (x : ℕ). fill_entry_ne (a + n) new cut x in
      let place : 1024 * block_num + (off + n) ≡ a + n = omega arith in
      let size : (1024 + 2 ^ 16 - (off + n)) % 2 ^ 16 ≡ last.rec_len - n =
        omega (arith, fits.room) in
      (
        disk',
        rw
            (
              h.name_len_at,
              calc_rec_len_div4-need (length last.name),
              append_entry,
              held.rec_len_at,
              size,
            )
            refl,
        (
          (
            Holds-keep cut disk' a (record last { rec_len = n })
                (λ x lo hi. out x (inl (omega arith))) held,
            omega arith,
            omega (arith, fits.room),
            (
              rw place (fill_entry-Holds (a + n) new cut entry),
              omega (arith, fits.room),
              omega (arith, fits.room),
              omega (arith, fits.room),
            ),
          ),
          λ x outside.
              out x (ground (arith, fits.room)) ∙ write16_ne disk (a + 4) n x (ground arith),
        ),
      )

  write_ent_loop_lem :
      (es : List Entry) (fuel off : ℕ) (disk : Disk)
      → length es < fuel
      → Layout disk block_num off (es ++ last ∷ [])
      → (disk' : Disk) × (write_ent_loop fuel block_num off inode (length name) file_type name disk
          ≡ some disk')
        × Appended off es disk disk'
  unfolding write_ent_loop
  write_ent_loop_lem es zero off disk enough layout = absurd (omega arith)
  write_ent_loop_lem [] (suc fuel) off disk enough (h, fit, below, end) =
      let (disk', e, r) = append_entry_lem disk off h end in
      let start : (off == 1024) ≡ false = ground (arith, fits.room) in
      let last_one : (last.rec_len + off == 1024) ≡ true = ground arith in
      (disk', rw (start, h.rec_len_at, last_one) e, r)
  write_ent_loop_lem (x ∷ es) (suc fuel) off disk enough (h, fit, below, rest) =
      let next = off + x.rec_len in
      let inner : next < 1024 = Layout-append_lt disk block_num next es last [] rest in
      let start : (off == 1024) ≡ false = ground arith in
      let more : (x.rec_len + off == 1024) ≡ false = ground arith in
      let (disk', e, (layout, kept)) = write_ent_loop_lem es fuel next disk (omega arith) rest in
      (
        disk',
        rw (start, h.rec_len_at, more) e,
        (
          (
            Holds-keep disk disk' (1024 * block_num + off) x (λ y lo hi. kept y (inl (omega arith)))
                h,
            fit,
            below,
            layout,
          ),
          λ y out. kept y (ground arith),
        ),
      )

-- On a block of a directory whose last entry leaves room, `write_ent_to_block` ends: the last entry
-- is cut to its own length, the new entry is the last of the block with all that is left of it, the
-- entries before stay, and no byte outside the block is changed.
pub write_ent_to_block_lem :
    (block_num inode file_type : ℕ) (name : List ℕ) (es : List Entry) (last : Entry) (disk : Disk)
    → HasRoom last inode file_type name
    → Layout disk block_num 0 (es ++ last ∷ [])
    → (disk' : Disk) × (write_ent_to_block block_num inode (length name) file_type name disk
        ≡ some disk')
      × Layout disk' block_num 0
          (es ++ cut_entry last inode file_type name ∷ new_entry last inode file_type name ∷ [])
      × ((x : ℕ) → Outside (1024 * block_num) 1024 x → disk' x ≡ disk x)
unfolding write_ent_to_block
write_ent_to_block_lem block_num inode file_type name es last disk fits layout =
    let size = Layout-length disk block_num 0 (es ++ last ∷ []) layout in
    let (disk', e, (layout', kept)) =
      write_ent_loop_lem block_num last inode file_type name fits es 1025 0 disk
        (omega (arith, length-append es (last ∷ []))) layout in
    (disk', e, layout', λ x out. kept x (ground arith))

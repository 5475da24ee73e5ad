-- ===== src/Ext2/Entries/Write.antt =====
-- A4/ext2_utils.c: the bytes of an entry that is written.
use csc369_assignments.Prelude.{ℕ, ◌+◌, ◌<◌, ◌≡◌, refl, ◌∙◌, inl, List, [], ◌∷◌, length, arith}
use csc369_assignments.Ext2.Disk.{
  Disk, Outside, write8, write16, write32, write8_self, write8_ne, write16_ne, write32_ne,
  read16-write16, read32-write32, read16-keep, read32-keep,
}
use csc369_assignments.Ext2.Entries.{strncpy, fill_entry}
use csc369_assignments.Ext2.Entries.Layout.{Entry, NameAt, Holds}

-- The characters of a name are bytes.
abbrev pub AllBytes : List ℕ → Type 0
AllBytes [] = Unit {0}
AllBytes (c ∷ name) = (c < 256) × AllBytes name

strncpy_ne :
    (name : List ℕ) (a : ℕ) (disk : Disk) (x : ℕ)
    → Outside a (length name) x
    → strncpy (length name) name a disk x ≡ disk x
unfolding strncpy
strncpy_ne [] a disk x out = refl
strncpy_ne (c ∷ name) a disk x out =
    strncpy_ne name (a + 1) (write8 disk a c) x (ground arith) ∙ write8_ne disk a c x (ground arith)

strncpy-NameAt :
    (name : List ℕ) (a : ℕ) (disk : Disk)
    → AllBytes name
    → NameAt (strncpy (length name) name a disk) a name
unfolding strncpy
strncpy-NameAt [] a disk bytes = tt
strncpy-NameAt (c ∷ name) a disk (byte, bytes) = (
  strncpy_ne name (a + 1) (write8 disk a c) a (inl (omega arith))
      ∙ write8_self disk a c
      ∙ omega arith,
  strncpy-NameAt name (a + 1) (write8 disk a c) bytes,
)

-- The fields of an entry fit their places.
pub record IsEntry (e : Entry) : Type 0 where
  pub inode_fits : e.inode < 4294967296
  pub rec_len_fits : e.rec_len < 65536
  pub name_len_fits : length e.name < 256
  pub file_type_fits : e.file_type < 256
  pub name_fits : AllBytes e.name

module _ (a : ℕ) (e : Entry) (disk : Disk) where
  abbrev disk1 : Disk
  disk1 = write32 disk a e.inode

  abbrev disk2 : Disk
  disk2 = write16 disk1 (a + 4) e.rec_len

  abbrev disk3 : Disk
  disk3 = write8 disk2 (a + 6) (length e.name)

  abbrev disk4 : Disk
  disk4 = write8 disk3 (a + 7) e.file_type

  abbrev filled : Disk
  filled = fill_entry a e.inode e.rec_len (length e.name) e.file_type e.name disk

  name_ne : (x : ℕ) → Outside (a + 8) (length e.name) x → filled x ≡ disk4 x
  unfolding fill_entry
  name_ne x out = strncpy_ne e.name (a + 8) disk4 x out

  bytes_ne : (x : ℕ) → Outside (a + 6) (2 + length e.name) x → filled x ≡ disk2 x
  bytes_ne x out =
      name_ne x (ground arith)
      ∙ write8_ne disk3 (a + 7) e.file_type x (ground arith)
      ∙ write8_ne disk2 (a + 6) (length e.name) x (ground arith)

  tail_ne : (x : ℕ) → Outside (a + 4) (4 + length e.name) x → filled x ≡ disk1 x
  tail_ne x out = bytes_ne x (ground arith) ∙ write16_ne disk1 (a + 4) e.rec_len x (ground arith)

  pub fill_entry_ne : (x : ℕ) → Outside a (8 + length e.name) x → filled x ≡ disk x
  fill_entry_ne x out = tail_ne x (ground arith) ∙ write32_ne disk a e.inode x (ground arith)

  pub fill_entry-Holds : IsEntry e → Holds filled a e
  unfolding fill_entry
  fill_entry-Holds fits = record {
    inode_at =
        read32-keep disk1 filled a (λ x lo hi. tail_ne x (inl (omega arith)))
        ∙ read32-write32 disk a e.inode fits.inode_fits;
    rec_len_at =
        read16-keep disk2 filled (a + 4) (λ x lo hi. bytes_ne x (inl (omega arith)))
        ∙ read16-write16 disk1 (a + 4) e.rec_len fits.rec_len_fits;
    name_len_at =
        name_ne (a + 6) (inl (omega arith))
        ∙ write8_ne disk3 (a + 7) e.file_type (a + 6) (inl (omega arith))
        ∙ write8_self disk2 (a + 6) (length e.name)
        ∙ omega (arith, fits.name_len_fits);
    file_type_at =
        name_ne (a + 7) (inl (omega arith))
        ∙ write8_self disk3 (a + 7) e.file_type
        ∙ omega (arith, fits.file_type_fits);
    name_at = strncpy-NameAt e.name (a + 8) disk4 fits.name_fits;
  }

-- ===== src/Ext2/Disk/Words.antt =====
-- A4/ext2.h: a word is read as it was written, and a write leaves the other bytes.
use mathlib.Core.Path.{fun_ext}
use csc369_assignments.Prelude.{ℕ, ◌+◌, ◌%◌, ◌≤◌, ◌<◌, ◌≡◌, ◌⊎◌, arith}
use csc369_assignments.Ext2.Disk.Defs.{Disk, IsBytes, read16, read32, write8, write16, write32}

-- The address `a` is not one of the `n` from `b` on.
abbrev pub Outside : ℕ → ℕ → ℕ → Type 0
Outside b n a = (a < b) ⊎ (b + n ≤ a)

module _ (disk : Disk) (a v : ℕ) where
  pub write8_self : write8 disk a v a ≡ v % 256
  unfolding write8
  write8_self = ground arith

  pub write8_ne : (b : ℕ) → Outside a 1 b → write8 disk a v b ≡ disk b
  unfolding write8
  write8_ne b out = ground arith

  pub write16_ne : (b : ℕ) → Outside a 2 b → write16 disk a v b ≡ disk b
  unfolding write16
  write16_ne b out = ground arith

  pub write32_ne : (b : ℕ) → Outside a 4 b → write32 disk a v b ≡ disk b
  unfolding write32
  write32_ne b out = ground arith

  pub read16-write16 : v < 65536 → read16 (write16 disk a v) a ≡ v
  unfolding read16 write16
  read16-write16 small = ground arith

  pub read32-write32 : v < 4294967296 → read32 (write32 disk a v) a ≡ v
  unfolding read32 write32
  read32-write32 small = ground arith

module _ (disk disk' : Disk) (a : ℕ) where
  pub read16-keep :
      ((x : ℕ) → a ≤ x → x < a + 2 → disk' x ≡ disk x) → read16 disk' a ≡ read16 disk a
  unfolding read16
  read16-keep same =
      omega (arith, same a (omega arith) (omega arith), same (a + 1) (omega arith) (omega arith))

  pub read32-keep :
      ((x : ℕ) → a ≤ x → x < a + 4 → disk' x ≡ disk x) → read32 disk' a ≡ read32 disk a
  unfolding read32
  read32-keep same = omega (
    arith,
    same a (omega arith) (omega arith),
    same (a + 1) (omega arith) (omega arith),
    same (a + 2) (omega arith) (omega arith),
    same (a + 3) (omega arith) (omega arith),
  )

module _ (disk : Disk) (bytes : IsBytes disk) (a : ℕ) where
  -- A word that is written over and then written as it was.
  pub write16_back : (v : ℕ) → write16 (write16 disk a v) a (read16 disk a) ≡ disk
  unfolding write16 read16
  write16_back v = fun_ext λ x. ground (arith, bytes a, bytes (a + 1))

  pub write16_same : write16 disk a (read16 disk a) ≡ disk
  unfolding write16 read16
  write16_same = fun_ext λ x. ground (arith, bytes a, bytes (a + 1))

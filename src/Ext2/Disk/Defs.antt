-- ===== src/Ext2/Disk/Defs.antt =====
-- A4/ext2.h: reading and writing the words of 16 and 32 bits of the image.
use csc369_assignments.Prelude.{ℕ, ◌+◌, ◌*◌, ◌/◌, ◌%◌, ◌<◌, update}

-- The byte at each address from the start of the image.
abbrev pub Disk : Type 0
Disk = ℕ → ℕ

unfoldable pub read16 : Disk → ℕ → ℕ
read16 disk a = disk a + 256 * disk (a + 1)

unfoldable pub read32 : Disk → ℕ → ℕ
read32 disk a = disk a + 256 * disk (a + 1) + 65536 * disk (a + 2) + 16777216 * disk (a + 3)

unfoldable pub write8 : Disk → ℕ → ℕ → Disk
write8 disk a v = update disk a (v % 256)

unfoldable pub write16 : Disk → ℕ → ℕ → Disk
write16 disk a v = update (update disk a (v % 256)) (a + 1) (v / 256 % 256)

unfoldable pub write32 : Disk → ℕ → ℕ → Disk
write32 disk a v =
    update
      (update (update (update disk a (v % 256)) (a + 1) (v / 256 % 256)) (a + 2) (v / 65536 % 256))
      (a + 3) (v / 16777216 % 256)

-- Every cell holds a byte.
abbrev pub IsBytes : Disk → Type 0
IsBytes disk = (a : ℕ) → disk a < 256

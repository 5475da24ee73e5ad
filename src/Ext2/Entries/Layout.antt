-- ===== src/Ext2/Entries/Layout.antt =====
-- A4/ext2.h: a block of a directory as the list of its entries.
use csc369_assignments.Prelude.{
  ℕ, ◌+◌, ◌*◌, ◌/◌, ◌≤◌, ◌<◌, ◌≡◌, ap, ◌∙◌, some, List, [], ◌∷◌, ◌++◌, length, arith,
}
use csc369_assignments.Ext2.Disk.{Disk, read16, read32}
use csc369_assignments.Ext2.Names.{
  calc_rec_len_div4, calc_rec_len_div4_name, calc_rec_len_div4_name_lem,
}

pub record Entry : Type 0 where
  pub inode : ℕ
  pub rec_len : ℕ
  pub file_type : ℕ
  pub name : List ℕ

-- The characters at an address.
abbrev pub NameAt : Disk → ℕ → List ℕ → Type 0
NameAt disk a [] = Unit {0}
NameAt disk a (c ∷ name) = (disk a ≡ c) × NameAt disk (a + 1) name

pub record Holds (disk : Disk) (a : ℕ) (e : Entry) : Type 0 where
  pub inode_at : read32 disk a ≡ e.inode
  pub rec_len_at : read16 disk (a + 4) ≡ e.rec_len
  pub name_len_at : disk (a + 6) ≡ length e.name
  pub file_type_at : disk (a + 7) ≡ e.file_type
  pub name_at : NameAt disk (a + 8) e.name

-- The bytes of an entry with a name of `n` characters, up to a multiple of 4.
abbrev pub need : ℕ → ℕ
need n = (n + 11) / 4 * 4

-- The entries from the offset `off` to the end of the block.
abbrev pub Layout : Disk → ℕ → ℕ → List Entry → Type 0
Layout disk block_num off [] = off ≡ 1024
Layout disk block_num off (e ∷ es) =
    Holds disk (1024 * block_num + off) e
    × (need (length e.name) ≤ e.rec_len)
    × (off + e.rec_len ≤ 1024)
    × Layout disk block_num (off + e.rec_len) es

pub calc_rec_len_div4-need : (n : ℕ) → calc_rec_len_div4 n ≡ some (need n)
unfolding calc_rec_len_div4 calc_rec_len_div4_name
calc_rec_len_div4-need n =
    let (r, e, multiple, lo, hi) = calc_rec_len_div4_name_lem n in
    let same : r ≡ need n = omega arith in e ∙ ap some same

pub calc_rec_len_div4-need_name : (n : ℕ) → calc_rec_len_div4_name n ≡ some (need n)
unfolding calc_rec_len_div4 calc_rec_len_div4_name
calc_rec_len_div4-need_name n = calc_rec_len_div4-need n

pub NameAt-keep :
    (disk disk' : Disk) (name : List ℕ) (a : ℕ)
    → ((x : ℕ) → a ≤ x → x < a + length name → disk' x ≡ disk x)
    → NameAt disk a name
    → NameAt disk' a name
NameAt-keep disk disk' [] a same h = tt
NameAt-keep disk disk' (c ∷ name) a same (h, rest) = (
  same a (omega arith) (omega arith) ∙ h,
  NameAt-keep disk disk' name (a + 1) (λ x lo hi. same x (omega arith) (omega arith)) rest,
)

-- An entry depends on its own bytes only.
pub Holds-keep :
    (disk disk' : Disk) (a : ℕ) (e : Entry)
    → ((x : ℕ) → a ≤ x → x < a + 8 + length e.name → disk' x ≡ disk x)
    → Holds disk a e
    → Holds disk' a e
unfolding read16 read32
Holds-keep disk disk' a e same h =
    let at = λ (k : ℕ) (lt : k < 8). same (a + k) (omega arith) (omega arith) in
    let b0 : disk' a ≡ disk a = same a (omega arith) (omega arith) in
    let b5 : disk' (a + 4 + 1) ≡ disk (a + 4 + 1) = same (a + 4 + 1) (omega arith) (omega arith) in
    record {
      inode_at =
          omega (arith, b0, at 1 (omega arith), at 2 (omega arith), at 3 (omega arith), h.inode_at);
      rec_len_at = omega (arith, at 4 (omega arith), b5, h.rec_len_at);
      name_len_at = at 6 (omega arith) ∙ h.name_len_at;
      file_type_at = at 7 (omega arith) ∙ h.file_type_at;
      name_at =
          NameAt-keep disk disk' e.name (a + 8) (λ x lo hi. same x (omega arith) (omega arith))
            h.name_at;
    }

-- Where there is an entry, the block is not at its end.
pub Layout-lt :
    (disk : Disk) (block_num off : ℕ) (e : Entry) (es : List Entry)
    → Layout disk block_num off (e ∷ es)
    → off < 1024
Layout-lt disk block_num off e es (h, fit, below, rest) = omega arith

pub Layout-append_lt :
    (disk : Disk) (block_num off : ℕ) (es : List Entry) (e : Entry) (more : List Entry)
    → Layout disk block_num off (es ++ e ∷ more)
    → off < 1024
Layout-append_lt disk block_num off [] e more h = Layout-lt disk block_num off e more h
Layout-append_lt disk block_num off (x ∷ es) e more h =
    Layout-lt disk block_num off x (es ++ e ∷ more) h

-- A block has at most 128 entries.
pub Layout-length :
    (disk : Disk) (block_num off : ℕ) (es : List Entry)
    → Layout disk block_num off es
    → off + 8 * length es ≤ 1024
Layout-length disk block_num off [] h = omega arith
Layout-length disk block_num off (e ∷ es) (h, fit, below, rest) =
    omega (arith, Layout-length disk block_num (off + e.rec_len) es rest)

-- The offset at which some entries end.
abbrev pub ends : ℕ → List Entry → ℕ
ends off [] = off
ends off (e ∷ es) = ends (off + e.rec_len) es

pub ends-le : (off : ℕ) (es : List Entry) → off ≤ ends off es
ends-le off [] = omega arith
ends-le off (e ∷ es) = omega (arith, ends-le (off + e.rec_len) es)

-- The entries of a block depend on the bytes from the first of them to the end of the block.
pub Layout-keep :
    (disk disk' : Disk) (block_num off : ℕ) (es : List Entry)
    → ((x : ℕ) → 1024 * block_num + off ≤ x → x < 1024 * block_num + 1024 → disk' x ≡ disk x)
    → Layout disk block_num off es
    → Layout disk' block_num off es
Layout-keep disk disk' block_num off [] same end = end
Layout-keep disk disk' block_num off (e ∷ es) same (h, fit, below, rest) = (
  Holds-keep disk disk' (1024 * block_num + off) e (λ x lo hi. same x lo (omega arith)) h,
  fit,
  below,
  Layout-keep disk disk' block_num (off + e.rec_len) es (λ x lo hi. same x (omega arith) hi) rest,
)

pub Layout-split :
    (disk : Disk) (block_num off : ℕ) (es rest : List Entry)
    → Layout disk block_num off (es ++ rest)
    → Layout disk block_num (ends off es) rest
Layout-split disk block_num off [] rest h = h
Layout-split disk block_num off (e ∷ es) rest (held, fit, below, h) =
    Layout-split disk block_num (off + e.rec_len) es rest h

-- ===== src/Ext2/Walk.antt =====
-- A4/ext2_utils.c: the names of a path, and the walk along them.
pub mod Names
mod Tests
use csc369_assignments.Prelude.{
  ℕ, zero, suc, ◌+◌, ◌-◌, ◌%◌, ◌^◌, Option, none, some, Bool, true, false, List, [], ◌∷◌, ◌++◌,
  length, ltb, ◌==◌, if◌then◌else◌,
}
use csc369_assignments.Prelude.State.{Cmd, deref}
use csc369_assignments.Ext2.Inodes.{Inode}
use csc369_assignments.Ext2.Entries.{minus_one, find_inode_in_blocks}
use csc369_assignments.Ext2.Image.{Image}
use csc369_assignments.Ext2.Paths.{get_path_length}

-- `strtok` with "/" puts the characters between the slashes together, and gives no empty token.
unfoldable pub tokens : List ℕ → List ℕ → List (List ℕ)
tokens [] [] = []
tokens (t ∷ token) [] = (t ∷ token) ∷ []
tokens token (c ∷ path) = elim (c == b'/') [
  | false ↦ tokens (token ++ c ∷ []) path
  | true ↦ elim token [ [] ↦ tokens [] path | t ∷ rest ↦ (t ∷ rest) ∷ tokens [] path ]
]

-- `separate_path` copies the path into `strlen(path)` bytes, and each token into as many bytes as it
-- has characters: the terminating zero is written one byte past the buffer. What a later read of
-- the string finds from that byte on, up to the next zero, is not the program's: nothing, where
-- the zero still stands. `copy_tail` is found behind the copy of the path, `name_tail k` behind the name
-- at place k of the array.
pub record Heap : Type 0 where
  pub copy_tail : List ℕ
  pub name_tail : ℕ → List ℕ

-- Each zero still stands when the string is read.
abbrev pub exact : Heap
exact = record { copy_tail = []; name_tail = λ k. [] }

-- The names from place k on, as they are read.
unfoldable pub with_tails : (ℕ → List ℕ) → ℕ → List (List ℕ) → List (List ℕ)
with_tails tail k [] = []
with_tails tail k (name ∷ names) = (name ++ tail k) ∷ with_tails tail (suc k) names

-- `separate_path`
unfoldable pub separate_path : Heap → List ℕ → List (List ℕ)
separate_path heap path = with_tails heap.name_tail 0 (tokens [] (path ++ heap.copy_tail))

-- `make_path_array`, where there is a place for every name.
unfoldable pub make_path_array : Heap → List ℕ → ℕ → Option (List (List ℕ))
make_path_array heap path path_length =
    let names = separate_path heap path in
    if ltb path_length (length names) then none else some names

-- The table of inodes has 32 places, and no place -1.
unfoldable pub inode_at : ℕ → Image → Option Inode
inode_at n m = if ltb n 32 then some (m.inodes n) else none

-- `find_inode_in_blocks(inodes[n].i_block, 0, limit, name, type)`
unfoldable pub find_in_inode : ℕ → ℕ → List ℕ → ℕ → Image → Option ℕ
find_in_inode n limit name type m = elim (inode_at n m) [
  | none ↦ none
  | some inode ↦ find_inode_in_blocks m.disk inode.i_block 0 limit name type
]

-- The loop of `verify_path` from a name on, with what the last search returned.
unfoldable pub verify_from : List (List ℕ) → ℕ → Image → Option ℕ
verify_from [] inode_num m = some 0
verify_from (name ∷ names) inode_num m = elim (inode_num == minus_one) [
  | true ↦ some 1
  | false ↦ elim (find_in_inode inode_num 12 name b'd' m) [
    | none ↦ none
    | some next ↦ verify_from names next m
  ]
]

-- `verify_path`, on the names that it goes along: all, or all but the last.
unfoldable pub verify_path : List (List ℕ) → Image → Option ℕ
verify_path names m = verify_from names 1 m

-- The loops of the commands that go from one directory to the next, and search up to a limit.
unfoldable pub walk : ℕ → List (List ℕ) → ℕ → Image → Option ℕ
walk limit [] inode_num m = some inode_num
walk limit (name ∷ names) inode_num m = elim (find_in_inode inode_num limit name b'd' m) [
  | none ↦ none
  | some next ↦ walk limit names next m
]

-- The names before `path[path_length - 1]`, and that name; the array has no such name for a length
-- of 0, or if there are fewer names than the length of the path says.
unfoldable pub split_last : ℕ → List (List ℕ) → Option (List (List ℕ) × List ℕ)
split_last zero names = none
split_last (suc n) [] = none
split_last (suc zero) (name ∷ names) = some ([], name)
split_last (suc (suc n)) (name ∷ names) = elim (split_last (suc n) names) [
  | none ↦ none
  | some (before, last) ↦ some (name ∷ before, last)
]

-- A path as the directories before its last name, and that name.
unfoldable pub open_path : Heap → List ℕ → Option (List (List ℕ) × List ℕ)
open_path heap path = elim (make_path_array heap path (get_path_length path)) [
  | none ↦ none
  | some names ↦ split_last (get_path_length path) names
]

-- All names of a path, `path_length` of them: a loop over fewer would read places of the array that
-- have not been written.
unfoldable pub path_names : Heap → List ℕ → Option (List (List ℕ))
path_names heap path = elim (make_path_array heap path (get_path_length path)) [
  | none ↦ none
  | some names ↦ if length names == get_path_length path then some names else none
]

-- What reads the image in a command, and what changes it.
abbrev pub look : {A : Type 0} → (Image → Option A) → Cmd Image A
look f m = deref (f m) m

abbrev pub modify : (Image → Image) → Cmd Image (Unit {0})
modify f m = some (tt, f m)

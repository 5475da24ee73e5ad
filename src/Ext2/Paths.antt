-- ===== src/Ext2/Paths.antt =====
-- A4/ext2_utils.c: the number of names in a path.
use csc369_assignments.Prelude.{
  ℕ, suc, ◌<◌, ◌≡◌, refl, ◌∙◌, true, false, not, ◌&&◌, List, [], ◌∷◌, ◌++◌, length, length-append,
  has, ltb, ◌==◌, if◌then◌else◌, arith,
}

-- The character that a string begins with; a string that is at its end begins with 0.
abbrev pub first_char : List ℕ → ℕ
first_char [] = 0
first_char (c ∷ path) = c

-- The slashes of a path that are not followed by another one.
unfoldable pub count_names : List ℕ → ℕ
count_names [] = 0
count_names (c ∷ path) =
    let rest = count_names path in
    if (c == b'/') && not (first_char path == b'/') then suc rest else rest

-- `get_path_length`
unfoldable pub get_path_length : List ℕ → ℕ
get_path_length path = if ltb 1 (length path) then count_names path else 0

-- A path of names, each with a slash before it.
abbrev pub join : List (List ℕ) → List ℕ
join [] = []
join (name ∷ names) = b'/' ∷ (name ++ join names)

-- A name has a character, and no slash.
abbrev pub AllNames : List (List ℕ) → Type 0
AllNames [] = Unit {0}
AllNames (name ∷ names) = (0 < length name) × (has b'/' name ≡ false) × AllNames names

count_names-append :
    (name path : List ℕ) → has b'/' name ≡ false → count_names (name ++ path) ≡ count_names path
unfolding count_names
count_names-append [] path h = refl
count_names-append (c ∷ name) path h = ground (arith, count_names-append name path)

first_char-append :
    (name path : List ℕ)
    → 0 < length name
    → has b'/' name ≡ false
    → (first_char (name ++ path) == b'/') ≡ false
first_char-append [] path long h = absurd (omega arith)
first_char-append (c ∷ name) path long h = ground arith

count_names-join :
    (names : List (List ℕ)) → AllNames names → count_names (join names) ≡ length names
unfolding count_names
count_names-join [] all = refl
count_names-join (name ∷ names) (long, plain, all) =
    let rest = count_names-append name (join names) plain ∙ count_names-join names all in
    rw (first_char-append name (join names) long plain, rest) refl

-- The length of a path is the number of its names, when each name has a slash before it and the
-- path does not end in one.
pub get_path_length-join :
    (names : List (List ℕ)) → AllNames names → get_path_length (join names) ≡ length names
unfolding get_path_length
get_path_length-join [] all = refl
get_path_length-join (name ∷ names) (long, plain, all) =
    let more : ltb 1 (length (join (name ∷ names))) ≡ true =
      ground (arith, length-append name (join names)) in
    rw (more, count_names-join (name ∷ names) (long, plain, all)) refl

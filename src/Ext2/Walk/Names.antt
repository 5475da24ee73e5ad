-- ===== src/Ext2/Walk/Names.antt =====
-- A4/ext2_utils.c: the names of a path, and what `verify_path` does not see.
use csc369_assignments.Prelude.{
  ℕ, suc, ◌+◌, ◌<◌, ◌≡◌, ◌≢◌, refl, sym, ap, ◌∙◌, none, some, false, List, [], ◌∷◌, ◌++◌, length,
  length-append, has, ltb, ◌==◌, arith, test_of_ne, Bool-cases, Option-cases, inl, inr,
}
use csc369_assignments.Ext2.Entries.{minus_one}
use csc369_assignments.Ext2.Image.{Image}
use csc369_assignments.Ext2.Paths.{join, AllNames, get_path_length, get_path_length-join}
use csc369_assignments.Ext2.Walk.{
  Heap, exact, with_tails, tokens, separate_path, make_path_array, find_in_inode, verify_from,
  verify_path, walk, inode_at, split_last, open_path,
}

append-cons : (xs : List ℕ) (c : ℕ) (ys : List ℕ) → (xs ++ c ∷ []) ++ ys ≡ xs ++ c ∷ ys
append-cons [] c ys = refl
append-cons (x ∷ xs) c ys = ap (λ l. x ∷ l) (append-cons xs c ys)

append-nil : (xs : List ℕ) → xs ++ [] ≡ xs
append-nil [] = refl
append-nil (x ∷ xs) = ap (λ l. x ∷ l) (append-nil xs)

tokens-append :
    (name token path : List ℕ)
    → has b'/' name ≡ false
    → tokens token (name ++ path) ≡ tokens (token ++ name) path
unfolding tokens
tokens-append [] token path plain = rw (append-nil token) refl
tokens-append (c ∷ name) [] path plain =
    let other : (c == b'/') ≡ false = ground arith in
    rw (other, tokens) (tokens-append name (c ∷ []) path (ground arith))
tokens-append (c ∷ name) (t ∷ token) path plain =
    let other : (c == b'/') ≡ false = ground arith in
    let e : (token ++ c ∷ []) ++ name ≡ token ++ c ∷ name = append-cons token c name in
    rw (other, tokens, ← e) (tokens-append name (t ∷ (token ++ c ∷ [])) path (ground arith))

-- A token that ends at a slash or at the end of the path, before the names that follow.
abbrev flush : List ℕ → List (List ℕ) → List (List ℕ)
flush [] names = names
flush (t ∷ token) names = (t ∷ token) ∷ names

flush-long :
    (name : List ℕ) (names : List (List ℕ)) → 0 < length name → flush name names ≡ name ∷ names
flush-long [] names long = absurd (omega arith)
flush-long (c ∷ name) names long = refl

tokens-join :
    (token : List ℕ) (names : List (List ℕ))
    → AllNames names
    → tokens token (join names) ≡ flush token names
unfolding tokens
tokens-join [] [] all = refl
tokens-join (t ∷ token) [] all = refl
tokens-join [] (name ∷ names) (long, plain, all) =
    tokens-append name [] (join names) plain
    ∙ tokens-join name names all
    ∙ flush-long name names long
tokens-join (t ∷ token) (name ∷ names) (long, plain, all) =
    ap (λ l. (t ∷ token) ∷ l)
      (tokens-append name [] (join names) plain
        ∙ tokens-join name names all
        ∙ flush-long name names long)

split_last-append :
    (names : List (List ℕ)) (last : List ℕ)
    → split_last (length (names ++ last ∷ [])) (names ++ last ∷ []) ≡ some (names, last)
unfolding split_last
split_last-append [] last = refl
split_last-append (name ∷ []) last = refl
split_last-append (name ∷ next ∷ names) last =
    rw (split_last-append (next ∷ names) last, split_last) refl

append_assoc : (xs ys zs : List ℕ) → (xs ++ ys) ++ zs ≡ xs ++ (ys ++ zs)
append_assoc [] ys zs = refl
append_assoc (x ∷ xs) ys zs = ap (λ l. x ∷ l) (append_assoc xs ys zs)

-- What stands behind a path stands behind its last name.
join-tail :
    (names : List (List ℕ)) (last tail : List ℕ)
    → join (names ++ last ∷ []) ++ tail ≡ join (names ++ (last ++ tail) ∷ [])
join-tail [] last tail =
    ap (λ l. b'/' ∷ l) (ap (λ l. l ++ tail) (append-nil last) ∙ sym (append-nil (last ++ tail)))
join-tail (name ∷ names) last tail =
    ap (λ l. b'/' ∷ l)
      (append_assoc name (join (names ++ last ∷ [])) tail
        ∙ ap (λ l. name ++ l) (join-tail names last tail))

has-append :
    (xs ys : List ℕ) → has b'/' xs ≡ false → has b'/' ys ≡ false → has b'/' (xs ++ ys) ≡ false
has-append [] ys hx hy = hy
has-append (x ∷ xs) ys hx hy = ground (arith, has-append xs ys)

tail-AllNames :
    (names : List (List ℕ)) (last tail : List ℕ)
    → AllNames (names ++ last ∷ [])
    → has b'/' tail ≡ false
    → AllNames (names ++ (last ++ tail) ∷ [])
tail-AllNames [] last tail (long, plain, all) h =
    (omega (arith, length-append last tail), has-append last tail plain h, tt)
tail-AllNames (name ∷ names) last tail (long, plain, all) h =
    (long, plain, tail-AllNames names last tail all h)

with_tails-append :
    (tail : ℕ → List ℕ) (k : ℕ) (names : List (List ℕ)) (last : List ℕ)
    → with_tails tail k (names ++ last ∷ [])
      ≡ with_tails tail k names ++ (last ++ tail (k + length names)) ∷ []
unfolding with_tails
with_tails-append tail k [] last = ap (λ n. (last ++ tail n) ∷ []) (omega arith)
with_tails-append tail k (name ∷ names) last =
    let index : suc k + length names ≡ k + suc (length names) = omega arith in
    ap (λ l. (name ++ tail k) ∷ l)
      (with_tails-append tail (suc k) names last
        ∙ ap (λ n. with_tails tail (suc k) names ++ (last ++ tail n) ∷ []) index)

length-with_tails :
    (tail : ℕ → List ℕ) (k : ℕ) (names : List (List ℕ))
    → length (with_tails tail k names) ≡ length names
unfolding with_tails
length-with_tails tail k [] = refl
length-with_tails tail k (name ∷ names) = ap suc (length-with_tails tail (suc k) names)

with_tails-nothing : (k : ℕ) (names : List (List ℕ)) → with_tails (λ i. []) k names ≡ names
unfolding with_tails
with_tails-nothing k [] = refl
with_tails-nothing k (name ∷ names) =
    ap (λ n. n ∷ with_tails (λ i. []) (suc k) names) (append-nil name)
    ∙ ap (λ l. name ∷ l) (with_tails-nothing (suc k) names)

length-snoc :
    (names : List (List ℕ)) (last other : List ℕ)
    → length (names ++ last ∷ []) ≡ length (names ++ other ∷ [])
length-snoc [] last other = refl
length-snoc (name ∷ names) last other = ap suc (length-snoc names last other)

open_path-run :
    (heap : Heap) (path : List ℕ) (names : List (List ℕ)) (last : List ℕ)
    → get_path_length path ≡ length (names ++ last ∷ [])
    → separate_path heap path ≡ names ++ last ∷ []
    → open_path heap path ≡ some (names, last)
unfolding open_path make_path_array
open_path-run heap path names last count parts =
    let n = length (names ++ last ∷ []) in
    let room : ltb n n ≡ false = ground arith in
    let made : make_path_array heap path n ≡ some (names ++ last ∷ []) =
      rw (parts, make_path_array, room) refl in
    rw (count, made, open_path, count) (split_last-append names last)

-- A path of names, each with a slash before it, is taken apart into as many names, if no slash
-- stands behind the copy of the path: `open_path` gives the directories and the last name, each with
-- what stands in memory behind its string, the last name with what stands behind the copy of the path
-- before that.
pub open_path-join :
    (heap : Heap) (names : List (List ℕ)) (last : List ℕ)
    → AllNames (names ++ last ∷ [])
    → has b'/' heap.copy_tail ≡ false
    → open_path heap (join (names ++ last ∷ []))
      ≡ some (
        with_tails heap.name_tail 0 names,
        (last ++ heap.copy_tail) ++ heap.name_tail (length names),
      )
unfolding separate_path
open_path-join heap names last all plain =
    let tail = heap.name_tail in
    let long = last ++ heap.copy_tail in
    let tails : with_tails tail 0 (names ++ long ∷ [])
        ≡ with_tails tail 0 names ++ (long ++ tail (length names)) ∷ [] =
      with_tails-append tail 0 names long
      ∙ ap (λ n. with_tails tail 0 names ++ (long ++ tail n) ∷ []) (omega arith) in
    let parts : separate_path heap (join (names ++ last ∷ []))
        ≡ with_tails tail 0 names ++ (long ++ tail (length names)) ∷ [] =
      ap (λ p. with_tails tail 0 (tokens [] p)) (join-tail names last heap.copy_tail)
      ∙ ap (λ l. with_tails tail 0 l)
          (tokens-join [] (names ++ long ∷ []) (tail-AllNames names last heap.copy_tail all plain))
      ∙ tails in
    let size : length (names ++ last ∷ [])
        ≡ length (with_tails tail 0 names ++ (long ++ tail (length names)) ∷ []) =
      length-snoc names last long
      ∙ sym (length-with_tails tail 0 (names ++ long ∷ []))
      ∙ ap length tails in
    open_path-run heap (join (names ++ last ∷ [])) (with_tails tail 0 names)
      (long ++ tail (length names)) (get_path_length-join (names ++ last ∷ []) all ∙ size) parts

-- Where each terminating zero still stands, the names are those of the path.
pub open_path-exact :
    (names : List (List ℕ)) (last : List ℕ)
    → AllNames (names ++ last ∷ [])
    → open_path exact (join (names ++ last ∷ [])) ≡ some (names, last)
open_path-exact names last all =
    open_path-join exact names last all refl
    ∙ ap (λ l. some (l, (last ++ []) ++ [])) (with_tails-nothing 0 names)
    ∙ ap (λ l. some (names, l)) (append-nil (last ++ []) ∙ append-nil last)

verify_from-run :
    (names : List (List ℕ)) (name : List ℕ) (start next : ℕ) (m : Image)
    → (start == minus_one) ≡ false
    → find_in_inode start 12 name b'd' m ≡ some next
    → verify_from (name ∷ names) start m ≡ verify_from names next m
unfolding verify_from
verify_from-run names name start next m good found = rw (good, found, verify_from) refl

walk-run :
    (limit : ℕ) (names : List (List ℕ)) (name : List ℕ) (start next : ℕ) (m : Image)
    → find_in_inode start limit name b'd' m ≡ some next
    → walk limit (name ∷ names) start m ≡ walk limit names next m
unfolding walk
walk-run limit names name start next m found = rw (found, walk) refl

verify_from-step :
    (names : List (List ℕ)) (name : List ℕ) (start n r : ℕ) (m : Image)
    → walk 12 names start m ≡ some n
    → n ≢ minus_one
    → find_in_inode n 12 name b'd' m ≡ some r
    → verify_from names start m ≡ some 0
    → (verify_from (names ++ name ∷ []) start m ≡ some 0)
      × (walk 12 (names ++ name ∷ []) start m ≡ some r)
unfolding verify_from walk
verify_from-step [] name start n r m there ne found ok =
    let same : start ≡ n = cc in
    let good : (start == minus_one) ≡ false = rw same (test_of_ne n minus_one ne) in
    let here : find_in_inode start 12 name b'd' m ≡ some r = rw same found in
    (verify_from-run [] name start r m good here, walk-run 12 [] name start r m here)
verify_from-step (x ∷ names) name start n r m there ne found ok =
    elim (Bool-cases (start == minus_one)) [
      | inl bad ↦ absurd (ground arith)
      | inr good ↦ elim (Option-cases (find_in_inode start 12 x b'd' m)) [
        | inl lost ↦ absurd (ground arith)
        | inr (next, here) ↦
            let (a, b) =
              verify_from-step names name next n r m
                (rw (walk-run 12 names x start next m here) at there) ne found
                (rw (verify_from-run names x start next m good here) at ok) in
            (
              verify_from-run (names ++ name ∷ []) x start next m good here ∙ a,
              walk-run 12 (names ++ name ∷ []) x start next m here ∙ b,
            )
      ]
    ]

-- `verify_path` does not see that the last directory of its path is missing: where the directories
-- before are there and the search for the last one returns -1, it still reports a valid path. The
-- walk then ends with the inode number -1, from which every search reads before the table.
pub verify_path-misses_last :
    (names : List (List ℕ)) (name : List ℕ) (n : ℕ) (m : Image)
    → verify_path names m ≡ some 0
    → walk 12 names 1 m ≡ some n
    → n ≢ minus_one
    → find_in_inode n 12 name b'd' m ≡ some minus_one
    → (verify_path (names ++ name ∷ []) m ≡ some 0)
      × (walk 12 (names ++ name ∷ []) 1 m ≡ some minus_one)
      × ((limit type : ℕ) (file : List ℕ) → find_in_inode minus_one limit file type m ≡ none)
unfolding verify_path find_in_inode inode_at
verify_path-misses_last names name n m ok there ne lost =
    let (a, b) = verify_from-step names name 1 n minus_one m there ne lost ok in
    (a, b, λ limit type file. refl)

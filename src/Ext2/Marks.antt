-- ===== src/Ext2/Marks.antt =====
-- A4/ext2_utils.c: a mark in a bitmap changes that bit alone, and the search finds the first free.
use csc369_assignments.Prelude.{
  ℕ, zero, suc, ◌+◌, ◌/◌, ◌%◌, ◌≤◌, ◌<◌, ◌≡◌, refl, ◌∙◌, ◌⊎◌, inl, inr, none, some, Bool, true,
  false, not, ◌==◌, if◌then◌else◌, update, update_self, update_ne, update_twice, update_same, arith,
  Bool-cases, Option-cases, eq_of_test, ne_of_test,
}
use csc369_assignments.Prelude.Word.{
  test_bit, set_bit, clear_bit, test_bit-set_bit, test_bit-clear_bit, clear_bit-set_bit,
  set_bit-clear_bit,
}
use csc369_assignments.Ext2.Bitmaps.{
  first_free, next_available_block, update_bitmap, deall_bitmap, bit_at, read_bitmap,
  allocate_block,
}

split_eq : (i j : ℕ) → i / 8 ≡ j / 8 → (i % 8 == j % 8) ≡ (i == j)
split_eq i j h = ground arith

module _ (bits : ℕ → ℕ) (i : ℕ) where
  bit_at-update :
      (w : ℕ) (x : Bool)
      → ((k : ℕ) → test_bit w k ≡ (if i % 8 == k then x else test_bit (bits (i / 8)) k))
      → (j : ℕ) → bit_at (update bits (i / 8) w) j ≡ (if i == j then x else bit_at bits j)
  unfolding bit_at
  bit_at-update w x bit j = elim (Bool-cases (i / 8 == j / 8)) [
    | inl same ↦
        let e = eq_of_test (i / 8) (j / 8) same in
        rw (← e, update_self bits (i / 8) w, bit (j % 8), split_eq i j e) refl
    | inr other ↦
        let ne = ne_of_test (i / 8) (j / 8) other in
        let apart : (i == j) ≡ false = ground arith in
        rw (update_ne bits (i / 8) w (j / 8) ne, apart) refl
  ]

  pub bit_at-update_bitmap :
      (j : ℕ) → bit_at (update_bitmap bits i) j ≡ (if i == j then true else bit_at bits j)
  unfolding update_bitmap
  bit_at-update_bitmap j =
      bit_at-update (set_bit (bits (i / 8)) (i % 8)) true (test_bit-set_bit (bits (i / 8)) (i % 8))
        j

  pub bit_at-deall_bitmap :
      (j : ℕ) → bit_at (deall_bitmap bits i) j ≡ (if i == j then false else bit_at bits j)
  unfolding deall_bitmap
  bit_at-deall_bitmap j =
      bit_at-update (clear_bit (bits (i / 8)) (i % 8)) false
        (test_bit-clear_bit (bits (i / 8)) (i % 8)) j

  free_after_mark : bit_at bits i ≡ false → deall_bitmap (update_bitmap bits i) i ≡ bits
  unfolding deall_bitmap update_bitmap bit_at
  free_after_mark free =
      rw
        (
          update_self bits (i / 8) (set_bit (bits (i / 8)) (i % 8)),
          clear_bit-set_bit (bits (i / 8)) (i % 8) free,
        )
        (update_twice bits (i / 8) (set_bit (bits (i / 8)) (i % 8)) (bits (i / 8))
          ∙ update_same bits (i / 8))

  mark_after_free : bit_at bits i ≡ true → update_bitmap (deall_bitmap bits i) i ≡ bits
  unfolding deall_bitmap update_bitmap bit_at
  mark_after_free used =
      rw
        (
          update_self bits (i / 8) (clear_bit (bits (i / 8)) (i % 8)),
          set_bit-clear_bit (bits (i / 8)) (i % 8) used,
        )
        (update_twice bits (i / 8) (clear_bit (bits (i / 8)) (i % 8)) (bits (i / 8))
          ∙ update_same bits (i / 8))

  -- Marking an inode or a block sets its bit and no other, freeing it clears its bit and no other;
  -- to mark one that is free and then free it leaves the bitmap as it was, and so does to free one
  -- that is marked and then mark it.
  pub deall_bitmap-update_bitmap :
      ((j : ℕ) → bit_at (update_bitmap bits i) j ≡ (if i == j then true else bit_at bits j))
      × ((j : ℕ) → bit_at (deall_bitmap bits i) j ≡ (if i == j then false else bit_at bits j))
      × (bit_at bits i ≡ false → deall_bitmap (update_bitmap bits i) i ≡ bits)
      × (bit_at bits i ≡ true → update_bitmap (deall_bitmap bits i) i ≡ bits)
  deall_bitmap-update_bitmap =
      (bit_at-update_bitmap, bit_at-deall_bitmap, free_after_mark, mark_after_free)

first_free-some :
    (rounds i j : ℕ) (bitmap : ℕ → ℕ)
    → first_free rounds i bitmap ≡ some j
    → (j < i + rounds)
      × ((bitmap j == 0) ≡ true)
      × ((k : ℕ) → i ≤ k → k < j → (bitmap k == 0) ≡ false)
unfolding first_free
first_free-some zero i j bitmap e = cc
first_free-some (suc rounds) i j bitmap e = elim (Bool-cases (bitmap i == 0)) [
  | inl free ↦
      let at : some i ≡ some j = rw free at e in
      let same : i ≡ j = cc in (omega arith, rw (← same) free, λ k lo hi. absurd (omega arith))
  | inr used ↦
      let (lt, free, before) = first_free-some rounds (suc i) j bitmap (rw used at e) in
      (
        omega arith,
        free,
        λ k lo hi. elim (Bool-cases (i == k)) [
          | inl same ↦ rw (← eq_of_test i k same) used
          | inr other ↦ before k (ground arith) hi
        ],
      )
]

first_free-none :
    (rounds i : ℕ) (bitmap : ℕ → ℕ)
    → first_free rounds i bitmap ≡ none
    → (k : ℕ) → i ≤ k
    → k < i + rounds
    → (bitmap k == 0) ≡ false
unfolding first_free
first_free-none zero i bitmap e k lo hi = absurd (omega arith)
first_free-none (suc rounds) i bitmap e k lo hi = elim (Bool-cases (bitmap i == 0)) [
  | inl free ↦ absurd (ground arith)
  | inr used ↦ elim (Bool-cases (i == k)) [
    | inl same ↦ rw (← eq_of_test i k same) used
    | inr other ↦
        first_free-none rounds (suc i) bitmap (rw used at e) k (ground arith) (omega arith)
  ]
]

zero_bit : (bits : ℕ → ℕ) (k : ℕ) (x : Bool) → (read_bitmap bits k == 0) ≡ not x → bit_at bits k ≡ x
unfolding read_bitmap
zero_bit bits k x h = ground arith

-- On the array that `main` reads from the bitmap, `allocate_block` fails only if all 128 blocks are
-- in use. Otherwise it returns the lowest free block and marks that one alone.
pub allocate_block_lem :
    (bits : ℕ → ℕ)
    → ((allocate_block (read_bitmap bits) bits ≡ none) × ((k : ℕ) → k < 128 → bit_at bits k ≡ true))
      ⊎ ((n : ℕ) × (bits' : ℕ → ℕ) × (allocate_block (read_bitmap bits) bits ≡ some (n, bits'))
          × (n < 128)
          × (bit_at bits n ≡ false)
          × ((k : ℕ) → k < n → bit_at bits k ≡ true)
          × ((j : ℕ) → bit_at bits' j ≡ (if n == j then true else bit_at bits j)))
unfolding allocate_block next_available_block
allocate_block_lem bits = elim (Option-cases (first_free 128 0 (read_bitmap bits))) [
  | inl full ↦ inl (
    rw (full, allocate_block, next_available_block) refl,
    λ k lt.
        zero_bit bits k true
          (first_free-none 128 0 (read_bitmap bits) full k (omega arith) (omega arith)),
  )
  | inr (n, found) ↦
      let (lt, free, before) = first_free-some 128 0 n (read_bitmap bits) found in
      inr (
        n,
        update_bitmap bits n,
        rw (found, allocate_block, next_available_block) refl,
        omega arith,
        zero_bit bits n false free,
        λ k below. zero_bit bits k true (before k (omega arith) below),
        bit_at-update_bitmap bits n,
      )
]

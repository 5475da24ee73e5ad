-- ===== src/Ext2/Copy/Stored.antt =====
-- A4/ext2_cp.c: the bytes of whole blocks and of a part of one.
use mathlib.Core.Path.{fun_ext}
use csc369_assignments.Prelude.{
  ℕ, zero, suc, ◌+◌, ◌*◌, ◌-◌, ◌/◌, ◌%◌, ◌≤◌, ◌<◌, ◌≡◌, ◌≢◌, refl, ap, ◌∙◌, inl, inr, true, ltb,
  leb, ◌==◌, arith, Bool-cases,
}
use csc369_assignments.Ext2.Disk.{Disk, Outside}
use csc369_assignments.Ext2.Copy.{copy_bytes}

module _ (content : ℕ → ℕ) where
  copy_bytes_in :
      (position n a j : ℕ) (disk : Disk)
      → j < n
      → copy_bytes content position n a disk (a + j) ≡ content (position + j)
  unfolding copy_bytes
  copy_bytes_in position n a j disk lt =
      let e : position + (a + j - a) ≡ position + j = omega arith in
      let lo : leb a (a + j) ≡ true = ground arith in
      let hi : ltb (a + j) (a + n) ≡ true = ground arith in rw (lo, hi, e) refl

  copy_bytes_ne :
      (position n a x : ℕ) (disk : Disk)
      → Outside a n x
      → copy_bytes content position n a disk x ≡ disk x
  unfolding copy_bytes
  copy_bytes_ne position n a x disk out = ground arith

  pub copy_bytes_zero : (position a : ℕ) (disk : Disk) → copy_bytes content position 0 a disk ≡ disk
  copy_bytes_zero position a disk = fun_ext λ x. copy_bytes_ne position 0 a x disk (ground arith)

  -- `c` whole blocks and `r` bytes more.
  unfoldable pub stored : ℕ → ℕ → ℕ → (ℕ → ℕ) → ℕ → Disk → Disk
  stored zero r position blocks ind disk = copy_bytes content position r (1024 * blocks ind) disk
  stored (suc c) r position blocks ind disk =
      stored c r (position + 1024) blocks (ind + 1)
        (copy_bytes content position 1024 (1024 * blocks ind) disk)

  pub stored_ne :
      (c r position : ℕ) (blocks : ℕ → ℕ) (ind x : ℕ) (disk : Disk)
      → r ≤ 1024
      → ((k : ℕ)
          → ind ≤ k
          → 1024 * k < 1024 * ind + 1024 * c + r
          → Outside (1024 * blocks k) 1024 x)
      → stored c r position blocks ind disk x ≡ disk x
  unfolding stored
  stored_ne zero r position blocks ind x disk le out =
      copy_bytes_ne position r (1024 * blocks ind) x disk (elim (Bool-cases (r == 0)) [
        | inl nothing ↦ ground arith
        | inr some_bytes ↦ let o = out ind (omega arith) (ground arith) in ground arith
      ])
  stored_ne (suc c) r position blocks ind x disk le out =
      stored_ne c r (position + 1024) blocks (ind + 1) x
        (copy_bytes content position 1024 (1024 * blocks ind) disk) le
        (λ k lo hi. out k (omega arith) (omega arith))
      ∙ copy_bytes_ne position 1024 (1024 * blocks ind) x disk (out ind (omega arith) (omega arith))

  pub apart : (a b j : ℕ) → j < 1024 → a ≢ b → Outside (1024 * b) 1024 (1024 * a + j)
  apart a b j lt ne = ground arith

  pub stored_at :
      (c r position : ℕ) (blocks : ℕ → ℕ) (ind j : ℕ) (disk : Disk)
      → r ≤ 1024
      → ((i k : ℕ) → ind ≤ i → i < k → 1024 * k < 1024 * ind + 1024 * c + r → blocks i ≢ blocks k)
      → j < 1024 * c + r
      → stored c r position blocks ind disk (1024 * blocks (ind + j / 1024) + j % 1024)
        ≡ content (position + j)
  unfolding stored
  stored_at zero r position blocks ind j disk le distinct lt =
      let q : ind + j / 1024 ≡ ind = omega arith in
      let m : j % 1024 ≡ j = omega arith in
      rw (q, m) (copy_bytes_in position r (1024 * blocks ind) j disk (omega arith))
  stored_at (suc c) r position blocks ind j disk le distinct lt =
      let first = copy_bytes content position 1024 (1024 * blocks ind) disk in
      elim (Bool-cases (ltb j 1024)) [
        | inl low ↦
            let q : ind + j / 1024 ≡ ind = ground arith in
            let m : j % 1024 ≡ j = ground arith in
            rw (q, m)
              (stored_ne c r (position + 1024) blocks (ind + 1) (1024 * blocks ind + j) first le
                  (λ k lo hi.
                    apart (blocks ind) (blocks k) j (ground arith)
                      (distinct ind k (omega arith) (omega arith) (omega arith)))
                ∙ copy_bytes_in position 1024 (1024 * blocks ind) j disk (ground arith))
        | inr high ↦
            let q : ind + j / 1024 ≡ ind + 1 + (j - 1024) / 1024 = ground arith in
            let m : j % 1024 ≡ (j - 1024) % 1024 = ground arith in
            let p : position + 1024 + (j - 1024) ≡ position + j = ground arith in
            rw (q, m)
              (stored_at c r (position + 1024) blocks (ind + 1) (j - 1024) first le
                  (λ i k lo lt' hi. distinct i k (omega arith) lt' (omega arith)) (ground arith)
                ∙ ap content p)
      ]

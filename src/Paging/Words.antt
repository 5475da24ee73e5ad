-- ===== src/Paging/Words.antt =====
-- A3/pagetable.h: the flags and the frame number of an entry do not disturb one another.
use csc369_assignments.Prelude.{
  ℕ, zero, suc, ◌^◌, ◌<◌, ◌≡◌, Bool, true, false, arith, if◌then◌else◌, refl,
}
use csc369_assignments.Prelude.Word.{test_bit, set_bit, clear_bit, test_bit-set_bit}
use csc369_assignments.Paging.Machine.{
  frame_number, frame_bits, pg_valid, pg_dirty, pg_ref, pg_onswap,
}
use csc369_assignments.Paging.Table.{touched}

pub number-set_bit : (w : ℕ) → (k : ℕ) → k < 4 → frame_number (set_bit w k) ≡ frame_number w
unfolding set_bit
number-set_bit w zero h = omega arith
number-set_bit w (suc zero) h = omega arith
number-set_bit w (suc (suc zero)) h = omega arith
number-set_bit w (suc (suc (suc zero))) h = omega arith
number-set_bit w (suc (suc (suc (suc k)))) h = absurd (omega arith)

pub number-clear_bit : (w : ℕ) → (k : ℕ) → k < 4 → frame_number (clear_bit w k) ≡ frame_number w
unfolding clear_bit
number-clear_bit w zero h = omega arith
number-clear_bit w (suc zero) h = omega arith
number-clear_bit w (suc (suc zero)) h = omega arith
number-clear_bit w (suc (suc (suc zero))) h = omega arith
number-clear_bit w (suc (suc (suc (suc k)))) h = absurd (omega arith)

pub number-frame_bits : (f : ℕ) → f < 2 ^ 20 → frame_number (frame_bits f) ≡ f
number-frame_bits f h = omega arith

-- The flags of a fresh entry are clear.
pub test_bit-frame_bits : (f k : ℕ) → f < 2 ^ 20 → k < 4 → test_bit (frame_bits f) k ≡ false
unfolding test_bit
test_bit-frame_bits f zero h lt = ground arith
test_bit-frame_bits f (suc zero) h lt = ground arith
test_bit-frame_bits f (suc (suc zero)) h lt = ground arith
test_bit-frame_bits f (suc (suc (suc zero))) h lt = ground arith
test_bit-frame_bits f (suc (suc (suc (suc k)))) h lt = absurd (omega arith)

module _ (writes : Bool) (w : ℕ) where
  pub number-touched : frame_number (touched writes w) ≡ frame_number w
  number-touched = ground (
    arith,
    number-set_bit w pg_dirty (omega arith),
    number-set_bit w pg_valid (omega arith),
    number-set_bit (set_bit w pg_dirty) pg_valid (omega arith),
    number-set_bit (set_bit w pg_valid) pg_ref (omega arith),
    number-set_bit (set_bit (set_bit w pg_dirty) pg_valid) pg_ref (omega arith),
  )

  pub valid-touched : test_bit (touched writes w) pg_valid ≡ true
  valid-touched =
      rw
        (
          test_bit-set_bit (set_bit (if writes then set_bit w pg_dirty else w) pg_valid) pg_ref
              pg_valid,
          test_bit-set_bit (if writes then set_bit w pg_dirty else w) pg_valid pg_valid,
        )
        refl

  pub onswap-touched : test_bit (touched writes w) pg_onswap ≡ test_bit w pg_onswap
  onswap-touched =
      rw
        (
          test_bit-set_bit (set_bit (if writes then set_bit w pg_dirty else w) pg_valid) pg_ref
              pg_onswap,
          test_bit-set_bit (if writes then set_bit w pg_dirty else w) pg_valid pg_onswap,
        )
        (ground (arith, test_bit-set_bit w pg_dirty pg_onswap))

-- ===== src/Prelude/Word.antt =====
-- Single bits of a machine word: `w & (1 << k)`, `w |= 1 << k` and `w &= ~(1 << k)`.
use Prim.Native.Nat.{ℕ, zero, suc, ◌+◌, ◌*◌, ◌/◌, ◌%◌, ◌^◌, ◌≤◌, ◌<◌}
use mathlib.Core.Path.{◌≡◌, refl}
use mathlib.Core.Bool.{Bool, true, false}
use native.Mathlib.Omega.{arith}
use native.Mathlib.Nat.{two-pow-succ}
use csc369_assignments.Prelude.Tests.{◌==◌, if◌then◌else◌, eq_of_test, test_of_eq, ne_of_test}

-- `(w & (1 << k)) != 0`
unfoldable pub test_bit : ℕ → ℕ → Bool
test_bit w zero = w % 2 == 1
test_bit w (suc k) = test_bit (w / 2) k

-- `w | (1 << k)`
unfoldable pub set_bit : ℕ → ℕ → ℕ
set_bit w zero = w / 2 * 2 + 1
set_bit w (suc k) = set_bit (w / 2) k * 2 + w % 2

-- `w & ~(1 << k)`
unfoldable pub clear_bit : ℕ → ℕ → ℕ
clear_bit w zero = w / 2 * 2
clear_bit w (suc k) = clear_bit (w / 2) k * 2 + w % 2

pub test_bit-set_bit :
    (w k j : ℕ) → test_bit (set_bit w k) j ≡ (if k == j then true else test_bit w j)
unfolding test_bit set_bit
test_bit-set_bit w zero zero = ground arith
test_bit-set_bit w zero (suc j) =
    let e : (w / 2 * 2 + 1) / 2 ≡ w / 2 = omega arith in rw e (ground arith)
test_bit-set_bit w (suc k) zero = ground arith
test_bit-set_bit w (suc k) (suc j) =
    let e : (set_bit (w / 2) k * 2 + w % 2) / 2 ≡ set_bit (w / 2) k = omega arith in
    rw e (ground (arith, test_bit-set_bit (w / 2) k j))

pub test_bit-clear_bit :
    (w k j : ℕ) → test_bit (clear_bit w k) j ≡ (if k == j then false else test_bit w j)
unfolding test_bit clear_bit
test_bit-clear_bit w zero zero = ground arith
test_bit-clear_bit w zero (suc j) =
    let e : (w / 2 * 2) / 2 ≡ w / 2 = omega arith in rw e (ground arith)
test_bit-clear_bit w (suc k) zero = ground arith
test_bit-clear_bit w (suc k) (suc j) =
    let e : (clear_bit (w / 2) k * 2 + w % 2) / 2 ≡ clear_bit (w / 2) k = omega arith in
    rw e (ground (arith, test_bit-clear_bit (w / 2) k j))

-- A word of n bits stays one.
pub set_bit-lt : (n w k : ℕ) → k < n → w < 2 ^ n → set_bit w k < 2 ^ n
unfolding set_bit
set_bit-lt zero w k h b = absurd (omega arith)
set_bit-lt (suc n) w zero h b =
    let e : 2 ^ suc n ≡ 2 ^ n + 2 ^ n = two-pow-succ n in omega (arith, e)
set_bit-lt (suc n) w (suc k) h b =
    let e : 2 ^ suc n ≡ 2 ^ n + 2 ^ n = two-pow-succ n in
    omega (arith, e, set_bit-lt n (w / 2) k (omega arith) (omega (arith, e)))

pub clear_bit-le : (w k : ℕ) → clear_bit w k ≤ w
unfolding clear_bit
clear_bit-le w zero = omega arith
clear_bit-le w (suc k) = omega (arith, clear_bit-le (w / 2) k)

-- A word of n bits that are all set is `2 ^ n - 1`, and the other way round.
pub eq_ones : (n w : ℕ) → w < 2 ^ n → ((j : ℕ) → j < n → test_bit w j ≡ true) → w + 1 ≡ 2 ^ n
unfolding test_bit
eq_ones zero w b h = omega arith
eq_ones (suc n) w b h =
    let e : 2 ^ suc n ≡ 2 ^ n + 2 ^ n = two-pow-succ n in
    let low : w % 2 ≡ 1 = eq_of_test _ _ (h 0 (omega arith)) in
    let rest : w / 2 + 1 ≡ 2 ^ n =
      eq_ones n (w / 2) (omega (arith, e)) (λ j lt. h (suc j) (omega arith)) in
    omega (arith, e)

pub test_bit-ones : (n w j : ℕ) → w + 1 ≡ 2 ^ n → j < n → test_bit w j ≡ true
unfolding test_bit
test_bit-ones zero w j e h = absurd (omega arith)
test_bit-ones (suc n) w zero e h =
    let p : 2 ^ suc n ≡ 2 ^ n + 2 ^ n = two-pow-succ n in test_of_eq _ _ (omega (arith, p))
test_bit-ones (suc n) w (suc j) e h =
    let p : 2 ^ suc n ≡ 2 ^ n + 2 ^ n = two-pow-succ n in
    test_bit-ones n (w / 2) j (omega (arith, p)) (omega arith)

pub test_bit-zero : (j : ℕ) → test_bit 0 j ≡ false
unfolding test_bit
test_bit-zero zero = refl
test_bit-zero (suc j) = test_bit-zero j

-- Setting a bit that is clear, and clearing it again, gives the word back; so the other way round.
pub clear_bit-set_bit : (w k : ℕ) → test_bit w k ≡ false → clear_bit (set_bit w k) k ≡ w
unfolding test_bit set_bit clear_bit
clear_bit-set_bit w zero h = omega (arith, ne_of_test _ _ h)
clear_bit-set_bit w (suc k) h =
    let e : (set_bit (w / 2) k * 2 + w % 2) / 2 ≡ set_bit (w / 2) k = omega arith in
    rw e (omega (arith, clear_bit-set_bit (w / 2) k h))

pub set_bit-clear_bit : (w k : ℕ) → test_bit w k ≡ true → set_bit (clear_bit w k) k ≡ w
unfolding test_bit set_bit clear_bit
set_bit-clear_bit w zero h = omega (arith, eq_of_test _ _ h)
set_bit-clear_bit w (suc k) h =
    let e : (clear_bit (w / 2) k * 2 + w % 2) / 2 ≡ clear_bit (w / 2) k = omega arith in
    rw e (omega (arith, set_bit-clear_bit (w / 2) k h))

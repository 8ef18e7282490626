-- ===== src/Prelude/Masks.antt =====
-- `x & (2 ^ k - 1)` on a byte, as a remainder.
use Prim.Native.Nat.{ℕ, ◌-◌, ◌%◌, ◌^◌, ◌≤◌, ◌<◌, bit_and}
use mathlib.Core.Path.{◌≡◌, refl}
use mathlib.Core.Bool.{Bool, true}
use native.Mathlib.Omega.{arith}
use stacks_encoding_native_j.Prelude.Tests.{◌==◌, ==→eq}
use stacks_encoding_native_j.Prelude.Tables.{holds_below, holds_below-at}

mask_agrees : ℕ → ℕ → Bool
mask_agrees x k = bit_and x (2 ^ k - 1) == x % 2 ^ k

mask_table : holds_below 9 (λ k. holds_below 256 (λ x. mask_agrees x k)) ≡ true
unfolding holds_below mask_agrees
mask_table = refl

-- A mask of up to eight ones keeps the remainder of a byte.
pub bit_and_mask : (x k : ℕ) → x < 256 → k ≤ 8 → bit_and x (2 ^ k - 1) ≡ x % 2 ^ k
bit_and_mask x k hx hk = ==→eq _ _ (
    unfold mask_agrees in
    holds_below-at 256 (λ y. mask_agrees y k) x
      (holds_below-at 9 (λ j. holds_below 256 (λ y. mask_agrees y j)) k mask_table (omega arith))
      hx)

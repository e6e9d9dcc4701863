-- ===== src/Common/Bits.antt =====
-- Checks of every value in a range, and the bit marks of a `short` below 2^9.
use Prim.Native.Nat.{ℕ, zero, suc, ◌/◌, ◌^◌, ◌<◌, bit_or, bit_and}
use mathlib.Core.Path.{◌≡◌, refl}
use mathlib.Core.Bool.{Bool, true, ◌&&◌}
use native.Mathlib.Omega.{arith}
use package.programming_workshop.Common.Tests.{◌==◌, ==_iff, if◌then◌else◌, ltb, ltb→lt}

-- The test holds of every number below the bound.
unfoldable pub holds_below : ℕ → (ℕ → Bool) → Bool
holds_below zero test = true
holds_below (suc bound) test = holds_below bound test && test bound

pub holds_below_sound :
    (bound : ℕ) (test : ℕ → Bool) (m : ℕ)
    → holds_below bound test ≡ true
    → m < bound
    → test m ≡ true
unfolding holds_below
holds_below_sound zero test m all small = absurd (omega arith)
holds_below_sound (suc bound) test m all small = ground (holds_below_sound bound test m, arith)

-- Bit `k` of `x`, as the program reads it: `(x >> k) & 1`.
unfoldable pub bit_at : ℕ → ℕ → ℕ
bit_at x k = bit_and (x / 2 ^ k) 1

abbrev mark_row : ℕ → ℕ → ℕ → Bool
mark_row k m x = bit_at (bit_or x (2 ^ k)) m == (if k == m then 1 else bit_at x m)

abbrev mark_test : ℕ → ℕ → Bool
mark_test k m = holds_below 512 (mark_row k m)

mark_table : holds_below 9 (λ k. holds_below 10 (mark_test k)) ≡ true
unfolding holds_below bit_at
mark_table = refl

-- Setting one mark sets that bit and leaves the others.
pub bit_at-mark :
    (x k m : ℕ)
    → x < 512
    → k < 9
    → m < 10
    → bit_at (bit_or x (2 ^ k)) m ≡ (if k == m then 1 else bit_at x m)
bit_at-mark x k m hx hk hm = (==_iff _ _).0 (
    holds_below_sound 512 (mark_row k m) x
      (holds_below_sound 10 (mark_test k) m
        (holds_below_sound 9 (λ k. holds_below 10 (mark_test k)) k mark_table hk) hm)
      hx)

bound_table : holds_below 9 (λ k. holds_below 512 (λ x. ltb (bit_or x (2 ^ k)) 512)) ≡ true
unfolding holds_below
bound_table = refl

pub mark-lt : (x k : ℕ) → x < 512 → k < 9 → bit_or x (2 ^ k) < 512
mark-lt x k hx hk = ltb→lt _ _ (
    holds_below_sound 512 (λ x. ltb (bit_or x (2 ^ k)) 512) x
      (holds_below_sound 9 (λ k. holds_below 512 (λ x. ltb (bit_or x (2 ^ k)) 512)) k bound_table
        hk)
      hx)

-- ===== src/Common/Decimal.antt =====
-- Numbers in decimal: what `%d` prints and what atoi() reads.
use Prim.Native.Nat.{ℕ, zero, suc, ◌+◌, ◌-◌, ◌*◌, ◌/◌, ◌%◌}
use mathlib.Core.Bool.{Bool, true, false, ◌&&◌, ◌||◌}
use mathlib.Core.List.{[], ◌∷◌}
use package.programming_workshop.Common.Tests.{ltb, leb, ◌==◌, if◌then◌else◌}
use package.programming_workshop.Common.Text.{Bytes}
use package.programming_workshop.Common.Int.{ℤ, pos, sub_ℕ}

abbrev pub is_digit : ℕ → Bool
is_digit c = leb 48 c && leb c 57

-- The digits of `n` in front of `rest`. Each round divides by ten, so `n + 1` rounds are enough.
unfoldable pub decimal_onto : ℕ → ℕ → Bytes → Bytes
decimal_onto zero n rest = rest
decimal_onto (suc fuel) n rest = elim (ltb n 10) [
  | true ↦ (48 + n) ∷ rest
  | false ↦ decimal_onto fuel (n / 10) ((48 + n % 10) ∷ rest)
]

unfoldable pub decimal : ℕ → Bytes
unfolding decimal_onto
decimal n = decimal_onto (suc n) n []

abbrev pub is_space : ℕ → Bool
is_space c = c == 32 || (leb 9 c && leb c 13)

unfoldable pub read_digits : ℕ → Bytes → ℕ
read_digits acc [] = acc
read_digits acc (c ∷ s) =
    let rest = read_digits (10 * acc + (c - 48)) s in if is_digit c then rest else acc

unfoldable pub read_signed : Bytes → ℤ
unfolding read_digits
read_signed [] = pos 0
read_signed (c ∷ s) =
    if c == b'-'
    then sub_ℕ 0 (read_digits 0 s)
    else if c == b'+'
    then pos (read_digits 0 s)
    else pos (read_digits 0 (c ∷ s))

unfoldable pub atoi : Bytes → ℤ
unfolding read_signed
atoi [] = pos 0
atoi (c ∷ s) = let rest = atoi s in if is_space c then rest else read_signed (c ∷ s)

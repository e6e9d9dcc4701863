-- ===== src/Common/Text.antt =====
-- Byte strings: literals, C strings in buffers, comparison.
use Prim.Native.Char.{code}
use Prim.Native.String.{String}
use Prim.Native.Nat.{ℕ, zero, suc, ◌<◌}
use mathlib.Core.Path.{◌≡◌, refl}
use mathlib.Core.Logic.{◌↔◌}
use mathlib.Core.Bool.{Bool, true, false, ◌&&◌}
use mathlib.Core.List.{List, [], ◌∷◌, ◌++◌}
use mathlib.Core.Option.{Option, none, some}
use native.Mathlib.Omega.{arith}
use package.programming_workshop.Common.Tests.{◌==◌}

abbrev pub Bytes : Type 0
Bytes = List ℕ

-- The bytes of an ASCII literal.
abbrev pub codes : String → Bytes
codes String.[] = []
codes (String.◌∷◌ c s) = code c ∷ codes s

-- Equality of byte strings: `strcmp(a, b) == 0`, `std::string::compare(b) == 0`.
unfoldable pub bytes_eq : Bytes → Bytes → Bool
bytes_eq [] [] = true
bytes_eq (x ∷ xs) (y ∷ ys) = x == y && bytes_eq xs ys
bytes_eq _ _ = false

pub bytes_eq_iff : (a b : Bytes) → (bytes_eq a b ≡ true) ↔ (a ≡ b)
unfolding bytes_eq
bytes_eq_iff (x ∷ a) (y ∷ b) = ground (arith, bytes_eq_iff a b)
bytes_eq_iff _ _ = ground arith

-- The C string that starts a buffer: its bytes before the first NUL. `none`: no NUL in the buffer,
-- so that a reader runs past the end.
unfoldable pub c_string : Bytes → Option Bytes
c_string [] = none
c_string (zero ∷ bs) = some []
c_string (suc b ∷ bs) = elim (c_string bs) [ none ↦ none | some s ↦ some (suc b ∷ s) ]

-- No byte is NUL.
abbrev pub NoNul : Bytes → Type 0
NoNul [] = Unit {0}
NoNul (b ∷ bs) = (0 < b) × NoNul bs

pub c_string-append : (s rest : Bytes) → NoNul s → c_string (s ++ zero ∷ rest) ≡ some s
unfolding c_string
c_string-append [] rest h = refl
c_string-append (zero ∷ s) rest h = absurd (omega arith)
c_string-append (suc b ∷ s) rest h = ground (arith, c_string-append s rest h.1)

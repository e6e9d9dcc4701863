-- ===== src/Common/Tokens.antt =====
-- What the C library does with lines and words: fgets(), strtok_r() with the delimiter " ", isdigit().
use Prim.Native.Nat.{ℕ, zero, suc}
use mathlib.Core.List.{[], ◌∷◌}
use mathlib.Core.Option.{Option, none, some}
use package.programming_workshop.Common.Tests.{◌==◌, if◌then◌else◌}
use package.programming_workshop.Common.Text.{Bytes}

abbrev cons_first : ℕ → Bytes × Bytes → Bytes × Bytes
cons_first c (line, rest) = (c ∷ line, rest)

-- At most `n` bytes of the input, up to and with the first newline, and the input left.
unfoldable pub read_line : ℕ → Bytes → Bytes × Bytes
read_line zero s = ([], s)
read_line (suc n) [] = ([], [])
read_line (suc n) (c ∷ s) =
    let more = read_line n s in if c == 10 then (c ∷ [], s) else cons_first c more

unfoldable pub skip_spaces : Bytes → Bytes
skip_spaces [] = []
skip_spaces (c ∷ s) = let rest = skip_spaces s in if c == 32 then rest else c ∷ s

-- The bytes before the first space, and those behind it.
unfoldable pub split_space : Bytes → Bytes × Bytes
split_space [] = ([], [])
split_space (c ∷ s) = let more = split_space s in if c == 32 then ([], s) else cons_first c more

abbrev token_of : Bytes → Option (Bytes × Bytes)
token_of [] = none
token_of (c ∷ s) = some (split_space (c ∷ s))

-- The next token and where the search goes on; `none` is a null pointer.
unfoldable pub strtok : Bytes → Option (Bytes × Bytes)
unfolding skip_spaces split_space
strtok s = token_of (skip_spaces s)

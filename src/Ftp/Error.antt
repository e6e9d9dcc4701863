-- ===== src/Ftp/Error.antt =====
-- tp3_ftp_multiclient_server/common_error.h and common_error.cpp: the text of an exception.
pub mod Messages
use programming_workshop.Common.{
  suc, Option, none, some, List, [], ◌∷◌, ◌++◌, ◌==◌, if◌then◌else◌, ◌>>=◌, Bytes, codes, take,
}
use programming_workshop.Common.Int.{ℤ, pos, negsuc}
use programming_workshop.Common.Decimal.{decimal}

-- An argument of the constructor, for `%s` or `%d`.
pub data Argument : Type 0 where
  text : Bytes → Argument
  number : ℤ → Argument

unfoldable pub signed_decimal : ℤ → Bytes
signed_decimal (pos n) = decimal n
signed_decimal (negsuc n) = b'-' ∷ decimal (suc n)

-- What printf() makes of a format with `%s` and `%d` only. `none`: an argument is missing or is not of
-- the kind, or another conversion is asked for.
unfoldable pub format : Bytes → List Argument → Option Bytes
unfolding signed_decimal
format [] args = some []
format (c ∷ []) args = if c == b'%' then none else some (c ∷ [])
format (c ∷ d ∷ fmt) args =
    let plain = format (d ∷ fmt) args in
    let converted : Option Bytes = elim args [
      | [] ↦ none
      | text t ∷ more ↦
          (let rest = format fmt more in if d == b's' then (do r ← rest; some (t ++ r)) else none)
      | number n ∷ more ↦
          (let rest = format fmt more in
            if d == b'd' then (do r ← rest; some (signed_decimal n ++ r)) else none)
    ] in
    if c == b'%' then converted else (do r ← plain; some (c ∷ r))

-- ERROR_MSG_LENGTH is 100: 99 bytes and the NUL.
unfoldable pub error : Bytes → List Argument → Option Bytes
unfolding format
error fmt args = do msg ← format fmt args; some (take 99 msg)

abbrev pub numbered : Bytes
numbered = codes "%s (%s%d). Error number: %d."

-- ===== src/Ftp/Client.antt =====
-- The client of tp3_ftp_multiclient_server/common_client.cpp: what it reads in an answer.
pub mod Run
pub mod Exchange
pub mod Program
use programming_workshop.Common.{
  ℕ, zero, suc, Bool, true, false, Option, none, some, List, [], ◌∷◌, ◌++◌, ◌==◌, if◌then◌else◌,
  ◌>>=◌, Bytes, codes, bytes_eq, length, get_elem?,
}

-- str[i] of a constant string: the byte behind the last is NUL, and further on it is undefined.
abbrev pub char_at : Bytes → ℕ → Option ℕ
char_at str i = elim (get_elem? str i) [
  | some c ↦ some c
  | none ↦ if i == length str then some 0 else none
]

-- The loop over CODE_LENGTH bytes.
unfoldable pub get_code : Bytes → Option Bytes
get_code str = do a ← char_at str 0; b ← char_at str 1; c ← char_at str 2; some (a ∷ b ∷ c ∷ [])

abbrev pub id_list_begin : Bytes
id_list_begin = codes "150"

abbrev pub id_list_end : Bytes
id_list_end = codes "226"

unfoldable pub is_list_start : Bytes → Option Bool
unfolding get_code
is_list_start str = do code ← get_code str; some (bytes_eq code id_list_begin)

abbrev pub id_quit : Bytes
id_quit = codes "221"

-- The test that is never made: its turn comes only for an empty line, for which the one before it holds.
unfoldable pub quit_received : Bytes → Option Bool
unfolding get_code
quit_received response = do code ← get_code response; some (bytes_eq code id_quit)

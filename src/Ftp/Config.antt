-- ===== src/Ftp/Config.antt =====
-- tp3_ftp_multiclient_server/Config.h and common_config.cpp: the texts of a file of lines key=text.
pub mod Lookup
use programming_workshop.Common.{
  ℕ, zero, suc, ◌+◌, Bool, true, false, Option, none, some, List, [], ◌∷◌, ◌++◌, ◌==◌,
  if◌then◌else◌, Bytes, bytes_eq, length,
}

-- The map, each key once. The order is not the one of `std::unordered_map`, which nothing shows.
abbrev pub ConfigMap : Type 0
ConfigMap = List (Bytes × Bytes)

unfoldable pub find : Bytes → ConfigMap → Option Bytes
find key [] = none
find key ((k, v) ∷ m) = if bytes_eq key k then some v else find key m

-- emplace() changes nothing if the key is there.
unfoldable pub emplace : Bytes → Bytes → ConfigMap → ConfigMap
unfolding find
emplace key value m = elim (find key m) [ some v ↦ m | none ↦ m ++ (key, value) ∷ [] ]

-- The bytes before a delimiter, and those behind it: `none` if it is not there.
unfoldable pub split_at : ℕ → Bytes → Bytes × Option Bytes
split_at d [] = ([], none)
split_at d (c ∷ s) =
    let rest = split_at d s in if c == d then ([], some s) else (c ∷ rest.0, rest.1)

-- std::getline(stream, text, d), for a stream with `rest` to be read: the text, and the stream.
-- `none`: the end has been read (eofbit), and a later call does not touch its text.
abbrev pub getline : ℕ → Option Bytes → Bytes → Bytes × Option Bytes
getline d none text = (text, none)
getline d (some rest) text = split_at d rest

-- The loop of the constructor, with `aux_str1` and `aux_str2`. Each round reads a byte at least or
-- finds the end: `none` when the fuel has run out.
unfoldable pub read_loop : ℕ → Option Bytes → Bytes → Bytes → ConfigMap → Option ConfigMap
read_loop fuel none s1 s2 m = some m
read_loop zero (some rest) s1 s2 m = none
read_loop (suc fuel) (some rest) s1 s2 m =
    let key = getline b'=' (some rest) s1 in
    let text = getline b'\n' key.1 s2 in
    let value = text.0 ++ b'\n' ∷ [] in read_loop fuel text.1 key.0 value (emplace key.0 value m)

-- The constructor, for a file that opens. If it does not open, eofbit is never set and the
-- loop does not end.
unfoldable pub config : Bytes → Option ConfigMap
unfolding read_loop emplace split_at
config file = read_loop (suc (suc (length file))) (some file) [] [] []

-- `none`: the key is missing, and the end of the map is dereferenced.
unfoldable pub get_message : ConfigMap → Bytes → Option Bytes
unfolding find
get_message m key = find key m

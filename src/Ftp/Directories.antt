-- ===== src/Ftp/Directories.antt =====
-- The directories of tp3_ftp_multiclient_server/common_server.cpp, a `std::set<std::string>` under the
-- mutex `dir_m`: a list in the order of the strings, each once.
pub mod Refinement
use programming_workshop.Common.{
  ℕ, zero, suc, ◌+◌, Bool, true, false, ◌||◌, List, [], ◌∷◌, ◌++◌, if◌then◌else◌, Bytes, codes,
  bytes_eq, length,
}
use programming_workshop.Ftp.Strings.{bytes_lt}

abbrev pub Directories : Type 0
Directories = List Bytes

-- directories.find(d) != directories.end()
unfoldable pub contains : Bytes → Directories → Bool
contains d [] = false
contains d (x ∷ ds) = bytes_eq d x || contains d ds

unfoldable pub insert : Bytes → Directories → Directories
insert d [] = d ∷ []
insert d (x ∷ ds) =
    let rest = insert d ds in
    if bytes_lt d x then d ∷ x ∷ ds else if bytes_eq d x then x ∷ ds else x ∷ rest

unfoldable pub erase : Bytes → Directories → Directories
erase d [] = []
erase d (x ∷ ds) = let rest = erase d ds in if bytes_eq d x then ds else x ∷ rest

unfoldable pub add_directory : Bytes → Directories → Bool × Directories
unfolding contains insert
add_directory d ds = if contains d ds then (false, ds) else (true, insert d ds)

unfoldable pub remove_directory : Bytes → Directories → Bool × Directories
unfolding contains erase
remove_directory d ds = if contains d ds then (true, erase d ds) else (false, ds)

abbrev pub dir_format : Bytes
dir_format = codes "drwxrwxrwx 0 1000 1000 4096 Sep 24 12:34 "

unfoldable pub get_list : Directories → Bytes
get_list [] = []
get_list (d ∷ ds) = dir_format ++ (d ++ get_list ds)

unfoldable pub directories_size : Directories → ℕ
directories_size ds = length ds

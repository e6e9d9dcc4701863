-- ===== src/Ftp/Main.antt =====
-- main() of the server, tp3_ftp_multiclient_server/server_main.cpp.
pub mod Ends
use programming_workshop.Common.{
  ℕ, Bool, true, false, Option, none, some, List, [], if◌then◌else◌, Bytes, get_elem?,
}
use programming_workshop.Sudoku.Socket.{Arrival}
use programming_workshop.Ftp.Result.{Result, returned, threw, faulted, unfinished, Act, ◌>>=◌}
use programming_workshop.Ftp.Config.{config}
use programming_workshop.Ftp.Threads.{ServerState, quit, close_all_sockets}

-- How the program ends: with a code, or by std::terminate.
pub data Exit : Type 0 where
  exit : ℕ → Exit
  terminated : Exit

-- The end of the block in which the acceptor's thread runs. It is joined, if it ends at all; an exception
-- destroys it while it can be joined, and that ends the program.
abbrev pub behind_threads : Bool → Result ServerState Unit → Result ServerState Exit
behind_threads ends (returned u w) = if ends then returned (exit 0) w else unfinished
behind_threads ends (threw m w) = returned terminated w
behind_threads ends faulted = faulted
behind_threads ends unfinished = unfinished

-- The program without what it prints; what the acceptor and the clients do is in the state that `quit` finds.
-- `read_file` is the content of a file that opens, `ends` says that the thread of the acceptor ends, and
-- `down` that shutdown() of its socket succeeds. The constructors of Protocol and Server do nothing but keep
-- pointers. Without argv[2] a null pointer is taken for the name of the file, and a file that does not open
-- is read forever.
unfoldable pub main :
    (Bytes → Option Bytes)
    → ℕ
    → (List Arrival → List Arrival)
    → Bool
    → Bool
    → List Bytes
    → Bytes
    → Act ServerState Exit
main read_file fuel shut down ends argv stdin w = elim (get_elem? argv 2) [
  | none ↦ faulted
  | some path ↦ elim (read_file path) [
    | none ↦ unfinished
    | some file ↦ elim (config file) [
      | none ↦ unfinished
      | some configuration ↦
          behind_threads ends
            ((do _ ← quit fuel shut down [] (some stdin); close_all_sockets shut) w)
    ]
  ]
]

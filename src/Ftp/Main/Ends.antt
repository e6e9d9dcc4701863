-- ===== src/Ftp/Main/Ends.antt =====
-- When the server of tp3_ftp_multiclient_server ends.
use programming_workshop.Common.{
  ℕ, ◌<◌, ◌≡◌, refl, ◌∙◌, ap, Bool, if◌then◌else◌, true, false, Option, some, List, [], ◌++◌, Bytes,
  codes, length, get_elem?, All,
}
use programming_workshop.Sudoku.Socket.{Arrival}
use programming_workshop.Ftp.Result.{returned, continue}
use programming_workshop.Ftp.Config.{ConfigMap, config}
use programming_workshop.Ftp.Threads.{ServerState, close_all_sockets}
use programming_workshop.Ftp.Threads.Closing.{Closes, stopped, close_all_sockets-none}
use programming_workshop.Ftp.Threads.Closing.Quitting.{IsOther, typed, quit_lem}
use programming_workshop.Ftp.Main.{Exit, exit, terminated, behind_threads, main}

abbrev pub exit_of : Bool → Exit
exit_of down = if down then exit 0 else terminated

behind_stop :
    (shut : List Arrival → List Arrival) (down : Bool) (w : ServerState)
    → w.clients ≡ []
    → behind_threads true (continue (λ (u : Unit {0}). close_all_sockets shut) (stopped down w))
      ≡ returned (exit_of down) w
behind_stop shut true w empty = ap (behind_threads true) (close_all_sockets-none shut w empty)
behind_stop shut false w empty = refl

-- The third argument names a file that opens and is read to its end as a configuration, and the input has
-- lines that are not `q`, then `q`, and there are more rounds than these lines. If at the start the server
-- runs, every client's pointer is valid and its thread has ended, and if the acceptor's thread ends, the
-- program ends: with the code 0 if shutdown() of the acceptor's socket succeeds, and by std::terminate if it
-- fails. Behind it the server does not run, no client is left, and the directories are as before.
pub main_lem :
    (read_file : Bytes → Option Bytes) (fuel : ℕ) (shut : List Arrival → List Arrival)
    (argv : List Bytes) (path file rest : Bytes) (cfg : ConfigMap) (ls : List Bytes) (down : Bool)
    (w : ServerState)
    → get_elem? argv 2 ≡ some path
    → read_file path ≡ some file
    → config file ≡ some cfg
    → All IsOther ls
    → length ls < fuel
    → w.is_running ≡ true
    → All (Closes w) w.clients
    → (w' : ServerState) × (main read_file fuel shut down true argv
          (typed ls ++ (codes "q\n" ++ rest))
          w
        ≡ returned (exit_of down) w')
      × (w'.clients ≡ [])
      × (w'.is_running ≡ false)
      × (w'.directories ≡ w.directories)
unfolding main
main_lem read_file fuel shut argv path file rest cfg ls down w a f c others long on h =
    let (w', r, empty, off, same) = quit_lem ls fuel shut down [] rest w others long on h in
    (
      w',
      rw (main, a, f, c)
          (ap (λ x. behind_threads true (continue (λ (u : Unit {0}). close_all_sockets shut) x)) r
            ∙ behind_stop shut down w' empty),
      empty,
      off,
      same,
    )

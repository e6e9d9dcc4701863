-- ===== src/Ftp/Threads/Closing/Quitting.antt =====
-- The thread of tp3_ftp_multiclient_server/common_server.cpp that waits for `q`.
use mathlib.Core.List.{append_assoc}
use programming_workshop.Common.{
  ℕ, zero, suc, ◌<◌, bytes_eq, ◌≡◌, refl, ◌∙◌, ap, Bool, true, false, Option, none, some, List, [],
  ◌∷◌, ◌++◌, arith, if◌then◌else◌, Bytes, codes, length, All,
}
use programming_workshop.Sudoku.Socket.{Arrival}
use programming_workshop.Ftp.Result.{Result, returned, unfinished, continue, pure}
use programming_workshop.Ftp.Config.{getline, split_at}
use programming_workshop.Ftp.Config.Lookup.{Lacks, split_at_lem}
use programming_workshop.Ftp.Threads.{ServerState, stop, is_quit, quit}
use programming_workshop.Ftp.Threads.Closing.{Closes, stopped, stop_lem}

-- A line that does not stop the server.
pub record IsOther (text : Bytes) : Type 0 where
  pub line : Lacks b'\n' text
  pub other : is_quit text ≡ false

abbrev pub typed : List Bytes → Bytes
typed [] = []
typed (l ∷ ls) = l ++ b'\n' ∷ typed ls

-- One round, for a line that is not `q`.
quit-other :
    (fuel : ℕ) (shut : List Arrival → List Arrival) (down : Bool) (str line : Bytes)
    (stdin later : Option Bytes) (w : ServerState)
    → w.is_running ≡ true
    → getline b'\n' stdin str ≡ (line, later)
    → is_quit line ≡ false
    → quit (suc fuel) shut down str stdin w ≡ quit fuel shut down line later w
unfolding quit
quit-other fuel shut down str line stdin later w on g other =
    let body = λ (x : Bytes × Option Bytes).
      continue (λ (u : Unit {0}). quit fuel shut down x.0 x.1)
        ((if is_quit x.0 then stop shut down else pure tt) w) in
    ap (λ b. if b then body (getline b'\n' stdin str) else returned tt w) on
    ∙ ap body g
    ∙ ap
        (λ b.
          continue (λ (u : Unit {0}). quit fuel shut down line later)
            ((if b then stop shut down else pure tt) w))
        other

quit-stop :
    (fuel : ℕ) (shut : List Arrival → List Arrival) (down : Bool) (str line : Bytes)
    (stdin later : Option Bytes) (w : ServerState) (ends : Result ServerState Unit)
    → w.is_running ≡ true
    → getline b'\n' stdin str ≡ (line, later)
    → is_quit line ≡ true
    → stop shut down w ≡ ends
    → quit (suc fuel) shut down str stdin w
      ≡ continue (λ (u : Unit {0}). quit fuel shut down line later) ends
unfolding quit
quit-stop fuel shut down str line stdin later w ends on g is_q r =
    let body = λ (x : Bytes × Option Bytes).
      continue (λ (u : Unit {0}). quit fuel shut down x.0 x.1)
        ((if is_quit x.0 then stop shut down else pure tt) w) in
    ap (λ b. if b then body (getline b'\n' stdin str) else returned tt w) on
    ∙ ap body g
    ∙ ap
        (λ b.
          continue (λ (u : Unit {0}). quit fuel shut down line later)
            ((if b then stop shut down else pure tt) w))
        is_q
    ∙ ap (continue (λ (u : Unit {0}). quit fuel shut down line later)) r

quit-stopped :
    (fuel : ℕ) (shut : List Arrival → List Arrival) (down : Bool) (str : Bytes)
    (stdin : Option Bytes) (w : ServerState)
    → w.is_running ≡ false
    → quit fuel shut down str stdin w ≡ returned tt w
unfolding quit
quit-stopped zero shut down str stdin w off = ap (λ b. if b then unfinished else returned tt w) off
quit-stopped (suc fuel) shut down str stdin w off =
    ap
      (λ b.
        if b
        then continue
            (λ (u : Unit {0}).
              quit fuel shut down (getline b'\n' stdin str).0 (getline b'\n' stdin str).1)
            ((if is_quit (getline b'\n' stdin str).0 then stop shut down else pure tt) w)
        else returned tt w)
      off

-- Behind `stop` the loop ends, too.
quit-behind :
    (fuel : ℕ) (shut : List Arrival → List Arrival) (down : Bool) (str : Bytes)
    (stdin : Option Bytes) (w : ServerState)
    → w.is_running ≡ false
    → continue (λ (u : Unit {0}). quit fuel shut down str stdin) (stopped down w) ≡ stopped down w
quit-behind fuel shut true str stdin w off = quit-stopped fuel shut true str stdin w off
quit-behind fuel shut false str stdin w off = refl

-- For an input of lines that are not `q`, then `q`, and more rounds than these lines: if the server runs,
-- and every client's pointer is valid and its thread has ended, `quit` returns, or throws if shutdown() of
-- the acceptor's socket fails, and behind it the server does not run, no client is left and the directories
-- are as before.
pub quit_lem :
    (ls : List Bytes) (fuel : ℕ) (shut : List Arrival → List Arrival) (down : Bool)
    (str rest : Bytes) (w : ServerState)
    → All IsOther ls
    → length ls < fuel
    → w.is_running ≡ true
    → All (Closes w) w.clients
    → (w' : ServerState) × (quit fuel shut down str (some (typed ls ++ (codes "q\n" ++ rest))) w
        ≡ stopped down w')
      × (w'.clients ≡ [])
      × (w'.is_running ≡ false)
      × (w'.directories ≡ w.directories)
unfolding split_at bytes_eq
quit_lem ls zero shut down str rest w others n on h = absurd (ground (arith, n))
quit_lem [] (suc fuel) shut down str rest w others n on h =
    let (w', r, empty, off, same) = stop_lem shut down w h in
    (
      w',
      quit-stop fuel shut down str (codes "q") (some (codes "q\n" ++ rest)) (some rest) w
            (stopped down w') on
            (split_at_lem b'\n' (codes "q") rest ((λ e. ground (arith, e)), tt {0})) refl r
          ∙ quit-behind fuel shut down (codes "q") (some rest) w' off,
      empty,
      off,
      same,
    )
quit_lem (l ∷ ls) (suc fuel) shut down str rest w others n on h =
    let later : Bytes = typed ls ++ (codes "q\n" ++ rest) in
    let (w', r, empty, off, same) =
      quit_lem ls fuel shut down l rest w others.1 (ground (arith, n)) on h in
    (
      w',
      quit-other fuel shut down str l (some (typed (l ∷ ls) ++ (codes "q\n" ++ rest))) (some later)
            w on
            (ap (split_at b'\n') (append_assoc l (b'\n' ∷ typed ls) (codes "q\n" ++ rest))
              ∙ split_at_lem b'\n' l later others.0.line)
            others.0.other
          ∙ r,
      empty,
      off,
      same,
    )

-- The end of the input has been read, and `str` stays the last line.
quit-ended :
    (fuel : ℕ) (shut : List Arrival → List Arrival) (down : Bool) (str : Bytes) (w : ServerState)
    → w.is_running ≡ true
    → is_quit str ≡ false
    → quit fuel shut down str none w ≡ unfinished
unfolding quit
quit-ended zero shut down str w on other = ap (λ b. if b then unfinished else returned tt w) on
quit-ended (suc fuel) shut down str w on other =
    quit-other fuel shut down str str none none w on refl other
    ∙ quit-ended fuel shut down str w on other

-- If the input ends without a line `q` and the server runs, `quit` does not return, however long it runs:
-- it asks for a line forever, without waiting.
pub quit-unfinished :
    (ls : List Bytes) (fuel : ℕ) (shut : List Arrival → List Arrival) (down : Bool) (str : Bytes)
    (w : ServerState)
    → All IsOther ls
    → w.is_running ≡ true
    → quit fuel shut down str (some (typed ls)) w ≡ unfinished
unfolding quit split_at bytes_eq
quit-unfinished ls zero shut down str w others on =
    ap (λ b. if b then unfinished else returned tt w) on
quit-unfinished [] (suc fuel) shut down str w others on =
    quit-other fuel shut down str [] (some []) none w on refl refl
    ∙ quit-ended fuel shut down [] w on refl
quit-unfinished (l ∷ ls) (suc fuel) shut down str w others on =
    quit-other fuel shut down str l (some (typed (l ∷ ls))) (some (typed ls)) w on
      (split_at_lem b'\n' l (typed ls) others.0.line) others.0.other
    ∙ quit-unfinished ls fuel shut down l w others.1 on

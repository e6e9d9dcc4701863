-- ===== src/Sudoku/Game/Start.antt =====
-- `sudoku_run_server` of tp1_sockets/sudoku.c: from the puzzle's file to the end of the session.
use programming_workshop.Common.{
  ℕ, zero, suc, ◌-◌, ◌≤◌, ◌<◌, ◌≡◌, refl, ◌∙◌, ap, true, false, Option, none, some, List, [], ◌∷◌,
  ◌++◌, arith, if◌then◌else◌, Bytes, codes, length, drop, replicate, ◌==◌, Bool-cases, inl, inr,
  length-append, length-replicate, get_elem?-append_left, NoNul,
}
use programming_workshop.Common.Int.{is_zero}
use programming_workshop.Sudoku.Socket.{
  Process, print, Arrival, segment, broken, connected, shutdown, close_call,
}
use programming_workshop.Sudoku.Socket.Receive.{available}
use programming_workshop.Sudoku.Socket.Send.{Accepting}
use programming_workshop.Sudoku.Socket.Setup.{Network, is_minus_one, skt_create_lem, skt_accept}
use programming_workshop.Sudoku.Board.{Board, BoardStatus, ok}
use programming_workshop.Sudoku.Board.Cells.{position, position-lt, HasCells, HasDigits}
use programming_workshop.Sudoku.Board.Put.{HasBuffers}
use programming_workshop.Sudoku.Board.Reset.{NoEof, board_read_lem}
use programming_workshop.Sudoku.State.{Server}
use programming_workshop.Sudoku.Server.{
  server_board_read, server_wait_user, server_destroy, msg_client_connected,
}
use programming_workshop.Sudoku.Server.Game.{IsGame}
use programming_workshop.Sudoku.Game.{
  Sudoku, endgame, Serving, arrival_bytes, serve, sudoku_run_server, cleared_board,
}
use programming_workshop.Sudoku.Game.Session.{
  Command, bytes_of, wire, Fits, frames, Plays, Session, read_and_serve_lem,
}

-- A file that fits the board and shows the digits of `o` in its cells.
pub record IsPuzzle (file : Bytes) (o : ℕ → ℕ → ℕ) : Type 0 where
  pub size : length file < 200
  pub covers : 161 ≤ length file
  pub no_eof : NoEof file
  pub no_nul : NoNul file
  pub cells : HasCells file o
  pub digits : HasDigits o

drop-replicate : (n m : ℕ) → m < n → drop {A = ℕ} m (replicate n 0) ≡ 0 ∷ replicate (n - suc m) 0
drop-replicate zero m h = absurd (omega arith)
drop-replicate (suc n) zero h = let e : suc n - 1 ≡ n = omega arith in rw e refl
drop-replicate (suc n) (suc m) h =
    let e : suc n - suc (suc m) ≡ n - suc m = omega arith in rw e (drop-replicate n m (omega arith))

abbrev pub loaded : Bytes → Board
loaded file = record {
  board = file ++ 0 ∷ replicate (200 - suc (length file)) 0;
  board_original = file ++ 0 ∷ replicate (200 - suc (length file)) 0;
  status = ok;
}

loaded-length :
    (file : Bytes)
    → length file < 200
    → length (file ++ 0 ∷ replicate (200 - suc (length file)) 0) ≡ 200
loaded-length file h = omega (
  arith,
  length-append file (0 ∷ replicate (200 - suc (length file)) 0),
  length-replicate {A = ℕ} (200 - suc (length file)) 0,
)

loaded-HasCells :
    (file rest : Bytes) (o : ℕ → ℕ → ℕ)
    → 161 ≤ length file
    → HasCells file o
    → HasCells (file ++ rest) o
loaded-HasCells file rest o n c i j h =
    get_elem?-append_left file rest (position i j) (omega (arith, position-lt i j h)) ∙ c i j h

-- Loading a puzzle into cleared buffers leaves its text, and zeros behind it, in both.
pub server_board_read_lem :
    (file : Bytes) (o : ℕ → ℕ → ℕ) (st : BoardStatus)
    → IsPuzzle file o
    → server_board_read (some file) (cleared_board st) ≡ some (loaded file)
unfolding server_board_read
server_board_read_lem file o st z =
    let zeros = drop-replicate 200 (length file) z.size in
    let sizes : HasBuffers (cleared_board st) = record {
      board_length = length-replicate {A = ℕ} 200 0;
      original_length = length-replicate {A = ℕ} 200 0;
    } in
    rw (board_read_lem file (cleared_board st) sizes z.no_eof (omega (arith, z.size)), zeros) refl

-- That starts a game that shows the puzzle.
pub loaded-IsGame : (file : Bytes) (o : ℕ → ℕ → ℕ) → IsPuzzle file o → IsGame o o (loaded file)
loaded-IsGame file o z =
    let rest : Bytes = 0 ∷ replicate (200 - suc (length file)) 0 in
    let n = loaded-length file z.size in
    let cells : HasCells (file ++ rest) o = loaded-HasCells file rest o z.covers z.cells in
    record {
      buffers = record { board_length = n; original_length = n };
      text = record {
        text = file;
        rest = replicate (200 - suc (length file)) 0;
        ends = refl;
        no_nul = z.no_nul;
        covers = z.covers;
      };
      puzzle = cells;
      puzzle_digits = z.digits;
      cells = cells;
      digits = z.digits;
      given = λ i j h e. refl;
      settled = λ h. ground arith;
    }

-- The bound on the loop's turns suffices: each command takes one byte at least.
available-arrival_bytes : (later : List Arrival) → length (available later) ≤ arrival_bytes later
unfolding arrival_bytes
available-arrival_bytes [] = omega arith
available-arrival_bytes (broken ∷ later) = omega arith
available-arrival_bytes (segment b bs ∷ later) =
    omega (arith, available-arrival_bytes later, length-append bs (available later))

bytes_of-pos : (c : Command) → 1 ≤ length (bytes_of c)
bytes_of-pos c = elim (Bool-cases (c.command == b'P')) [
  | inl put ↦ rw put (omega arith)
  | inr other ↦ rw other (omega arith)
]

wire-length : (cs : List Command) → length cs ≤ length (wire cs)
wire-length [] = omega arith
wire-length (c ∷ cs) =
    omega (arith, bytes_of-pos c, wire-length cs, length-append (bytes_of c) (wire cs))

serve_lem :
    (file : Bytes) (o : ℕ → ℕ → ℕ) (st : BoardStatus) (p : Process) (s : Server) (cs : List Command)
    → IsPuzzle file o
    → Accepting p.outcomes
    → available p.arrivals ≡ wire cs
    → Fits cs
    → Session o o ok cs p.sent (serve (some file) p (cleared_board st) s)
unfolding serve
serve_lem file o st p s cs z a e fits =
    let r = server_board_read_lem file o st z in
    let enough : length cs < suc (arrival_bytes p.arrivals) =
      omega (arith, wire-length cs, available-arrival_bytes p.arrivals, ap length e) in
    rw r (
      read_and_serve_lem cs o o (suc (arrival_bytes p.arrivals)) p (loaded file) s
        (loaded-IsGame file o z) a e fits enough)

-- The server's game is over: it has closed the connection, the status is ENDGAME, and the commands
-- `cs` were answered one by one.
pub record GameOver (o : ℕ → ℕ → ℕ) (cs : List Command) (self : Sudoku) (sent : Bytes)
    (r : Option (Sudoku × Serving)) : Type 0 where
  pub p' : Process
  pub board' : Board
  pub server' : Server
  pub g' : ℕ → ℕ → ℕ
  pub replies : List Bytes
  pub returns : r ≡ some (record self { status = endgame }, (p', board', server'))
  pub plays : Plays o o ok cs g' board'.status replies
  pub game : IsGame o g' board'
  pub answered : p'.sent ≡ sent ++ frames replies
  pub closed : p'.status ≡ shutdown

-- The network calls whose failure leaves the address list in no state to be used.
pub record Resolves (n : Network) : Type 0 where
  pub getaddrinfo_ok : (port : Bytes) → is_zero (n.getaddrinfo none port) ≡ true
  pub socket_ok : is_minus_one n.socket_result ≡ false
  pub bind_ok : is_minus_one n.bind_result ≡ false

-- The process behind `server_wait_user`.
abbrev accepted : Network → Process → Bytes → Process
accepted n p port =
    print
      (print
        (record p {
          skt = n.accept_result;
          status = connected;
          calls =
              if is_minus_one n.listen_result
              then p.calls ++ close_call n.socket_result ∷ []
              else p.calls;
        })
        (codes "Nuevo cliente\n"))
      (msg_client_connected ++ (port ++ codes "\n"))

-- A client is always taken for connected: `skt_accept` does not look at what accept() returns.
server_wait_user_lem :
    (n : Network) (p : Process) (port : Bytes)
    → Resolves n
    → server_wait_user n p port ≡ some (accepted n p port)
unfolding server_wait_user skt_accept
server_wait_user_lem n p port h =
    rw (skt_create_lem n p port, h.getaddrinfo_ok port, h.socket_ok, h.bind_ok) refl

-- A whole game of the server, for a client that sends the commands `cs` and closes the connection,
-- in whatever pieces the bytes arrive. If the address resolves and no call of send() fails, and each
-- 'P' names a cell of the grid and a value up to 9, `sudoku_run_server` returns with the status
-- ENDGAME and the connection closed. The client has been sent one framed answer per command, in
-- order, and each is the answer that `Answer` promises for the cells and the status that the commands
-- before have led to. The given cells of the puzzle are unchanged at the end.
pub sudoku_run_server_lem :
    (n : Network) (file port : Bytes) (self : Sudoku) (s : Server) (p : Process) (st : BoardStatus)
    (o : ℕ → ℕ → ℕ) (cs : List Command)
    → Resolves n
    → IsPuzzle file o
    → Accepting p.outcomes
    → available p.arrivals ≡ wire cs
    → Fits cs
    → GameOver o cs self p.sent (sudoku_run_server n (some file) port self s p (cleared_board st))
unfolding sudoku_run_server server_destroy
sudoku_run_server_lem n file port self s p st o cs net z a e fits =
    let r = server_wait_user_lem n p port net in
    let run = serve_lem file o st (accepted n p port) s cs z a e fits in
    record {
      p' = server_destroy run.p';
      board' = run.board';
      server' = run.server';
      g' = run.g';
      replies = run.replies;
      returns = rw (r, run.returns, run.ended) refl;
      plays = run.plays;
      game = run.game;
      answered = run.answered;
      closed = refl;
    }

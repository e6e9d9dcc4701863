-- ===== src/Sudoku/Game/Session.antt =====
-- A whole session of the server of tp1_sockets/sudoku.c, from its first command to the end.
use mathlib.Core.List.{append_assoc, append-nil}
use programming_workshop.Common.{
  ℕ, zero, suc, ◌≤◌, ◌<◌, ◌≡◌, refl, sym, ◌∙◌, ap, inl, inr, Option, some, List, [], ◌∷◌, ◌++◌,
  arith, ◌==◌, if◌then◌else◌, ◌>>=◌, Bool-cases, Bytes, length,
}
use programming_workshop.Sudoku.Socket.{Process, Arrival, reception_success, reception_end}
use programming_workshop.Sudoku.Socket.Receive.{available}
use programming_workshop.Sudoku.Socket.Send.{Accepting}
use programming_workshop.Sudoku.Board.{Board, BoardStatus}
use programming_workshop.Sudoku.Board.Cells.{InGrid}
use programming_workshop.Sudoku.State.{Server}
use programming_workshop.Sudoku.Protocol.Command.{
  command_bytes, protocol_receive_command_lem, protocol_receive_command-end,
}
use programming_workshop.Sudoku.Protocol.Text.{frame}
use programming_workshop.Sudoku.Server.{server_process_command, server_receive_command}
use programming_workshop.Sudoku.Server.Game.{IsGame, Answer}
use programming_workshop.Sudoku.Server.Handle.{server_process_command_lem}
use programming_workshop.Sudoku.Game.{serve_loop, Serving}

-- A command as the client means it.
pub record Command : Type 0 where
  pub command : ℕ
  pub row : ℕ
  pub col : ℕ
  pub value : ℕ

abbrev pub bytes_of : Command → Bytes
bytes_of c = command_bytes c.command c.row c.col c.value

abbrev pub wire : List Command → Bytes
wire [] = []
wire (c ∷ cs) = bytes_of c ++ wire cs

-- A 'P' names a cell of the grid and a value up to 9.
abbrev pub Fits : List Command → Type 0
Fits [] = Unit {0}
Fits (c ∷ cs) = (c.command ≡ b'P' → InGrid c.row c.col × (c.value ≤ 9)) × Fits cs

abbrev pub frames : List Bytes → Bytes
frames [] = []
frames (r ∷ rs) = frame r ++ frames rs

-- The server's record holds the command. Only a 'P' sets the three numbers.
pub record Holds (s : Server) (c : Command) : Type 0 where
  pub letter : s.command ≡ c.command
  pub numbers : c.command ≡ b'P' → (s.row ≡ c.row) × (s.col ≡ c.col) × (s.value ≡ c.value)

-- The commands `cs` take the game from the cells `g` and the status `st` to `g'` and `st'`, with
-- one answer each, in order.
pub data Plays (o : ℕ → ℕ → ℕ)
    : (ℕ → ℕ → ℕ)
      → BoardStatus
      → List Command
      → (ℕ → ℕ → ℕ)
      → BoardStatus
      → List Bytes
      → Type 0 where
  over : {g : ℕ → ℕ → ℕ} {st : BoardStatus} → Plays o g st [] g st []
  turn :
      {g g1 g' : ℕ → ℕ → ℕ} {st st1 st' : BoardStatus} {c : Command} {cs : List Command} {r : Bytes}
      {rs : List Bytes} (s : Server)
      → Holds s c
      → Answer o g s st g1 st1 r
      → Plays o g1 st1 cs g' st' rs
      → Plays o g st (c ∷ cs) g' st' (r ∷ rs)

-- The session returns with a game that the commands have led to, one answer to each sent in
-- order, and the status SKT_RECEPTION_END.
pub record Session (o g : ℕ → ℕ → ℕ) (st : BoardStatus) (cs : List Command) (sent : Bytes)
    (r : Option Serving) : Type 0 where
  pub p' : Process
  pub board' : Board
  pub server' : Server
  pub g' : ℕ → ℕ → ℕ
  pub replies : List Bytes
  pub returns : r ≡ some (p', board', server')
  pub plays : Plays o g st cs g' board'.status replies
  pub game : IsGame o g' board'
  pub answered : p'.sent ≡ sent ++ frames replies
  pub ended : p'.status ≡ reception_end

-- One reading of a command, and the loop behind it.
abbrev pub read_and_serve : ℕ → Process → Board → Server → Option Serving
read_and_serve fuel p board s = do
  (p', s') ← server_receive_command p s
  serve_loop fuel p' board s'

abbrev pub got : Server → Command → Server
got s c =
    if c.command == b'P'
    then record s { command = c.command; row = c.row; col = c.col; value = c.value }
    else record s { command = c.command }

pub got-Holds : (s : Server) (c : Command) → Holds (got s c) c
got-Holds s c = elim (Bool-cases (c.command == b'P')) [
  | inl put ↦ rw put (record { letter = refl; numbers = λ _. (refl, refl, refl) })
  | inr other ↦ rw other (record { letter = refl; numbers = λ h. ground arith })
]

pub receive-more :
    (p : Process) (s : Server) (c : Command) (cs : List Command)
    → available p.arrivals ≡ wire (c ∷ cs)
    → (left : List Arrival) × (server_receive_command p s
        ≡ some (record p { status = reception_success; arrivals = left }, got s c))
      × (available left ≡ wire cs)
unfolding server_receive_command
receive-more p s c cs e = protocol_receive_command_lem p s c.command c.row c.col c.value (wire cs) e

receive-end :
    (p : Process) (s : Server)
    → available p.arrivals ≡ []
    → (left : List Arrival) × (server_receive_command p s
        ≡ some (record p { status = reception_end; arrivals = left }, s))
unfolding server_receive_command
receive-end p s e = protocol_receive_command-end p s e

pub Fits-numbers :
    (s : Server) (c : Command)
    → Holds s c
    → (c.command ≡ b'P' → InGrid c.row c.col × (c.value ≤ 9))
    → s.command ≡ b'P'
    → InGrid s.row s.col × (s.value ≤ 9)
Fits-numbers s c h fits e =
    let put : c.command ≡ b'P' = sym h.letter ∙ e in
    let (r, l, v) = h.numbers put in rw (r, l, v) (fits put)

-- One turn of the loop: the command in the record is handled, and the rest read and served.
serve_loop-turn :
    (fuel : ℕ) (p : Process) (left : List Arrival) (board : Board) (s s' : Server) (board' : Board)
    (p' : Process)
    → server_process_command s board (record p { status = reception_success; arrivals = left })
      ≡ some (s', board', p')
    → serve_loop (suc fuel) (record p { status = reception_success; arrivals = left }) board s
      ≡ read_and_serve fuel p' board' s'
unfolding serve_loop
serve_loop-turn fuel p left board s s' board' p' e = rw e refl

serve_loop-over :
    (fuel : ℕ) (p : Process) (left : List Arrival) (board : Board) (s : Server)
    → serve_loop (suc fuel) (record p { status = reception_end; arrivals = left }) board s
      ≡ some (record p { status = reception_end; arrivals = left }, board, s)
unfolding serve_loop
serve_loop-over fuel p left board s = refl

pub read_and_serve_lem :
    (cs : List Command) (o g : ℕ → ℕ → ℕ) (fuel : ℕ) (p : Process) (board : Board) (s : Server)
    → IsGame o g board
    → Accepting p.outcomes
    → available p.arrivals ≡ wire cs
    → Fits cs
    → length cs < fuel
    → Session o g board.status cs p.sent (read_and_serve fuel p board s)
read_and_serve_lem cs o g zero p board s game a e fits n = absurd (omega arith)
read_and_serve_lem [] o g (suc fuel) p board s game a e fits n =
    let (left, r) = receive-end p s e in
    let last : Process = record p { status = reception_end; arrivals = left } in
    record {
      p' = last;
      board' = board;
      server' = s;
      g' = g;
      replies = [];
      returns = rw r (serve_loop-over fuel p left board s);
      plays = over;
      game = game;
      answered = sym (append-nil p.sent);
      ended = refl;
    }
read_and_serve_lem (c ∷ cs) o g (suc fuel) p board s game a e fits n =
    let (left, r, k) = receive-more p s c cs e in
    let p1 : Process = record p { status = reception_success; arrivals = left } in
    let s1 = got s c in
    let h = got-Holds s c in
    let turn_done =
      server_process_command_lem o g s1 board p1 game a (Fits-numbers s1 c h fits.0) in
    let rest =
      read_and_serve_lem cs o turn_done.g' fuel turn_done.p' turn_done.board' turn_done.self'
        turn_done.game turn_done.replied.accepting (ap available turn_done.replied.unread ∙ k)
        fits.1 (omega arith) in
    record {
      p' = rest.p';
      board' = rest.board';
      server' = rest.server';
      g' = rest.g';
      replies = turn_done.reply ∷ rest.replies;
      returns = rw r (serve_loop-turn fuel p left board s1 _ _ _ turn_done.returns ∙ rest.returns);
      plays = turn s1 h turn_done.answer rest.plays;
      game = rest.game;
      answered =
          rest.answered
          ∙ ap (λ x. x ++ frames rest.replies) turn_done.replied.sends
          ∙ append_assoc p.sent (frame turn_done.reply) (frames rest.replies);
      ended = rest.ended;
    }

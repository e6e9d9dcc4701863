-- ===== src/Sudoku/Server/Game.antt =====
-- A game in progress on the server of tp1_sockets/server.c, and the answers that a client is promised.
use programming_workshop.Common.{
  ℕ, ◌+◌, ◌%◌, ◌≤◌, ◌≡◌, ◌≢◌, refl, ◌⊎◌, inl, inr, true, false, ◌&&◌, Option, some, List, ◌++◌,
  arith, ◌==◌, Bool-cases, Bytes, codes, length,
}
use programming_workshop.Sudoku.Socket.{Process, Outcome, send_success}
use programming_workshop.Sudoku.Socket.Send.{Accepting}
use programming_workshop.Sudoku.Board.{Board, BoardStatus, ok, non_modifiable_value, invalid}
use programming_workshop.Sudoku.Board.Cells.{InGrid, HasCells, HasDigits}
use programming_workshop.Sudoku.Board.Put.{HasBuffers, changed}
use programming_workshop.Sudoku.Board.Reset.{HasText}
use programming_workshop.Sudoku.Board.Rules.{IsSudoku}
use programming_workshop.Sudoku.State.{Server}
use programming_workshop.Sudoku.Protocol.Text.{frame}
use programming_workshop.Sudoku.Server.{
  Handled, msg_non_modifiable_cell, msg_error_verify, msg_ok_verify, msg_invalid_cmd, is_invalid,
  is_non_modifiable,
}
use programming_workshop.Sudoku.Server.Picture.{IsPicture}

-- A game with the puzzle `o` whose board shows the cells `g`: the given cells of the puzzle, those
-- that are not '0', are unchanged.
pub record IsGame (o g : ℕ → ℕ → ℕ) (board : Board) : Type 0 where
  pub buffers : HasBuffers board
  pub text : HasText board
  pub puzzle : HasCells board.board_original o
  pub puzzle_digits : HasDigits o
  pub cells : HasCells board.board g
  pub digits : HasDigits g
  pub given : (i j : ℕ) → InGrid i j → o i j ≢ 48 → g i j ≡ o i j
  pub settled : board.status ≢ non_modifiable_value

-- The process has sent `reply`, can go on sending, and has read nothing.
pub record Replied (p : Process) (reply : Bytes) (p' : Process) : Type 0 where
  pub sends : p'.sent ≡ p.sent ++ reply
  pub accepting : Accepting p'.outcomes
  pub unread : p'.arrivals ≡ p.arrivals

pub valid-plain : (st : BoardStatus) → st ≢ invalid → is_invalid st ≡ false
valid-plain invalid h = absurd (h refl)
valid-plain _ h = refl

pub is_invalid_lem : (st : BoardStatus) → is_invalid st ≡ true → st ≡ invalid
is_invalid_lem st h = ground arith

-- A process that has sent a framed message, and one that has printed and sent a picture.
abbrev pub told : Process → List Outcome → Bytes → Process
told p outs msg = record p { status = send_success; outcomes = outs; sent = p.sent ++ frame msg }

abbrev pub pictured : Process → List Outcome → Bytes → Process
pictured p outs text = record p {
  status = send_success;
  outcomes = outs;
  sent = p.sent ++ frame text;
  stdout = (p.stdout ++ codes "\n") ++ text;
}

pub settled-plain : (st : BoardStatus) → st ≢ non_modifiable_value → is_non_modifiable st ≡ false
settled-plain non_modifiable_value h = absurd (h refl)
settled-plain _ h = refl

-- The same game with other cells and another status.
pub with_cells :
    (o g g' : ℕ → ℕ → ℕ) (board : Board) (buf : Bytes) (status : BoardStatus)
    → IsGame o g board
    → length buf ≡ 200
    → HasCells buf g'
    → HasDigits g'
    → ((i j : ℕ) → InGrid i j → o i j ≢ 48 → g' i j ≡ o i j)
    → status ≢ non_modifiable_value
    → IsGame o g' (record board { board = buf; status = status })
with_cells o g g' board buf status game n cells digits given settled = record {
  buffers = record { board_length = n; original_length = game.buffers.original_length };
  text = record {
    text = game.text.text;
    rest = game.text.rest;
    ends = game.text.ends;
    no_nul = game.text.no_nul;
    covers = game.text.covers;
  };
  puzzle = game.puzzle;
  puzzle_digits = game.puzzle_digits;
  cells = cells;
  digits = digits;
  given = given;
  settled = settled;
}

pub with_status-IsGame :
    (o g : ℕ → ℕ → ℕ) (board : Board) (status : BoardStatus)
    → IsGame o g board
    → status ≢ non_modifiable_value
    → IsGame o g (record board { status = status })
with_status-IsGame o g board status game settled =
    with_cells o g g board board.board status game game.buffers.board_length game.cells game.digits
      game.given settled

pub changed-digits :
    (o g : ℕ → ℕ → ℕ) (i j value : ℕ) (board : Board)
    → IsGame o g board
    → value ≤ 9
    → HasDigits (changed g i j ((value + 48) % 256))
changed-digits o g i j value board game v k l h = ground (arith, game.digits k l h)

pub changed-given :
    (o g : ℕ → ℕ → ℕ) (i j value : ℕ) (board : Board)
    → IsGame o g board
    → o i j ≡ 48
    → (k l : ℕ) → InGrid k l
    → o k l ≢ 48
    → changed g i j ((value + 48) % 256) k l ≡ o k l
changed-given o g i j value board game e k l h ne = elim (Bool-cases (k == i && l == j)) [
  | inl same ↦
      (let k' : k ≡ i = ground arith in
        let l' : l ≡ j = ground arith in absurd (ne (rw (k', l') e)))
  | inr other ↦ rw other (game.given k l h ne)
]

-- What the server does for a command: the cells `g` and the status `st` of the board before, `g'`
-- and `st'` after, and the string sent.
pub data Answer (o g : ℕ → ℕ → ℕ) (self : Server) (st : BoardStatus) (g' : ℕ → ℕ → ℕ)
    (st' : BoardStatus) (reply : Bytes) : Type 0 where
  written :
      self.command ≡ b'P'
      → o self.row self.col ≡ 48
      → g' ≡ changed g self.row self.col ((self.value + 48) % 256)
      → st' ≡ st
      → IsPicture g' reply
      → Answer o g self st g' st' reply
  refused :
      self.command ≡ b'P'
      → o self.row self.col ≢ 48
      → g' ≡ g
      → st' ≡ ok
      → reply ≡ msg_non_modifiable_cell
      → Answer o g self st g' st' reply
  correct :
      self.command ≡ b'V'
      → IsSudoku g
      → st ≢ invalid
      → g' ≡ g
      → st' ≡ st
      → reply ≡ msg_ok_verify
      → Answer o g self st g' st' reply
  wrong :
      self.command ≡ b'V'
      → (¬ IsSudoku g) ⊎ (st ≡ invalid)
      → g' ≡ g
      → st' ≡ invalid
      → reply ≡ msg_error_verify
      → Answer o g self st g' st' reply
  restarted :
      self.command ≡ b'R' → g' ≡ o → st' ≡ ok → IsPicture o reply → Answer o g self st g' st' reply
  shown :
      self.command ≡ b'G' → g' ≡ g → st' ≡ st → IsPicture g reply → Answer o g self st g' st' reply
  unknown :
      self.command ≢ b'P'
      → self.command ≢ b'V'
      → self.command ≢ b'R'
      → self.command ≢ b'G'
      → g' ≡ g
      → st' ≡ st
      → reply ≡ msg_invalid_cmd
      → Answer o g self st g' st' reply

-- The handler returns, keeps the game, and sends one framed answer.
pub record Serves (o g : ℕ → ℕ → ℕ) (self : Server) (board : Board) (p : Process)
    (r : Option Handled) : Type 0 where
  pub self' : Server
  pub board' : Board
  pub p' : Process
  pub g' : ℕ → ℕ → ℕ
  pub reply : Bytes
  pub returns : r ≡ some (self', board', p')
  pub game : IsGame o g' board'
  pub replied : Replied p (frame reply) p'
  pub answer : Answer o g self board.status g' board'.status reply

-- ===== src/Sudoku/Server/Answers.antt =====
-- Each case of `server_process_command` of tp1_sockets/server.c gives the promised answer.
use programming_workshop.Common.{
  ℕ, ◌+◌, ◌%◌, ◌≤◌, ◌≡◌, ◌≢◌, refl, ◌∙◌, ap, ◌⊎◌, inl, inr, true, false, some, arith, ◌==◌,
  Bool-cases, codes,
}
use programming_workshop.Sudoku.Socket.{Process, print}
use programming_workshop.Sudoku.Socket.Send.{Accepting}
use programming_workshop.Sudoku.Board.{Board, ok, invalid, board_verify}
use programming_workshop.Sudoku.Board.Cells.{InGrid}
use programming_workshop.Sudoku.Board.Put.{changed, board_put_lem}
use programming_workshop.Sudoku.Board.Reset.{board_reset_lem}
use programming_workshop.Sudoku.Board.Rules.{IsSudoku, board_verify_lem}
use programming_workshop.Sudoku.State.{Server}
use programming_workshop.Sudoku.Protocol.Text.{protocol_send_string_lem}
use programming_workshop.Sudoku.Server.{
  process_put, process_verify, process_reset, process_get, process_default, msg_non_modifiable_cell,
  msg_error_verify, msg_ok_verify, msg_invalid_cmd, is_invalid, is_non_modifiable,
}
use programming_workshop.Sudoku.Server.Picture.{server_send_board_lem}
use programming_workshop.Sudoku.Server.Game.{
  IsGame, written, refused, correct, wrong, restarted, shown, unknown, Serves, settled-plain,
  valid-plain, is_invalid_lem, told, pictured, with_cells, with_status-IsGame, changed-digits,
  changed-given,
}

module _ (o g : ℕ → ℕ → ℕ) (self : Server) (board : Board) (p : Process) (game : IsGame o g board)
    (a : Accepting p.outcomes) where
  put_written :
      self.command ≡ b'P'
      → InGrid self.row self.col
      → self.value ≤ 9
      → o self.row self.col ≡ 48
      → Serves o g self board p (process_put self board p)
  unfolding process_put
  put_written c h v empty =
      let (buf, e, n, cells) =
        board_put_lem board g o self.row self.col self.value game.buffers game.cells game.puzzle
          h in
      let t : (o self.row self.col == 48) ≡ true = ground arith in
      let g' = changed g self.row self.col ((self.value + 48) % 256) in
      let game' : IsGame o g' (record board { board = buf }) =
        with_cells o g g' board buf board.status game n (rw t at cells)
          (changed-digits o g self.row self.col self.value board game v)
          (changed-given o g self.row self.col self.value board game empty) game.settled in
      let (text, outs, sent, pic, acc) =
        server_send_board_lem p (record board { board = buf }) g' game'.digits game'.cells a in
      let plain : is_non_modifiable board.status ≡ false =
        settled-plain board.status game.settled in
      record {
        self' = self;
        board' = record board { board = buf };
        p' = pictured p outs text;
        g' = g';
        reply = text;
        returns = rw (e, t, plain, sent);
        game = game';
        replied = record { sends = refl; accepting = acc; unread = refl };
        answer = written c empty refl refl pic;
      }

  put_refused :
      self.command ≡ b'P'
      → InGrid self.row self.col
      → o self.row self.col ≢ 48
      → Serves o g self board p (process_put self board p)
  unfolding process_put
  put_refused c h given =
      let (buf, e, n, cells) =
        board_put_lem board g o self.row self.col self.value game.buffers game.cells game.puzzle
          h in
      let f : (o self.row self.col == 48) ≡ false = ground arith in
      let (outs, sent, acc) = protocol_send_string_lem p msg_non_modifiable_cell (omega arith) a in
      record {
        self' = self;
        board' = record board { board = buf; status = ok };
        p' = told p outs msg_non_modifiable_cell;
        g' = g;
        reply = msg_non_modifiable_cell;
        returns = rw (e, f, sent);
        game =
            with_cells o g g board buf ok game n (rw f at cells) game.digits game.given (λ x. cc);
        replied = record { sends = refl; accepting = acc; unread = refl };
        answer = refused c given refl refl refl;
      }

  -- The answer to a verification that finds no clash, or that finds one.
  verify_fine :
      self.command ≡ b'V'
      → IsSudoku g
      → board.status ≢ invalid
      → board_verify board ≡ some board
      → Serves o g self board p (process_verify self board p)
  unfolding process_verify
  verify_fine c s ne e =
      let (outs, sent, acc) = protocol_send_string_lem p msg_ok_verify (omega arith) a in
      record {
        self' = self;
        board' = board;
        p' = told p outs msg_ok_verify;
        g' = g;
        reply = msg_ok_verify;
        returns = rw (e, valid-plain board.status ne, sent);
        game = game;
        replied = record { sends = refl; accepting = acc; unread = refl };
        answer = correct c s ne refl refl refl;
      }

  verify_broken :
      self.command ≡ b'V'
      → (¬ IsSudoku g) ⊎ (board.status ≡ invalid)
      → board_verify board ≡ some (record board { status = invalid })
      → Serves o g self board p (process_verify self board p)
  unfolding process_verify
  verify_broken c bad e =
      let (outs, sent, acc) = protocol_send_string_lem p msg_error_verify (omega arith) a in
      record {
        self' = self;
        board' = record board { status = invalid };
        p' = told p outs msg_error_verify;
        g' = g;
        reply = msg_error_verify;
        returns = rw (e, sent);
        game = with_status-IsGame o g board invalid game (λ x. cc);
        replied = record { sends = refl; accepting = acc; unread = refl };
        answer = wrong c bad refl refl refl;
      }

  pub verify_lem : self.command ≡ b'V' → Serves o g self board p (process_verify self board p)
  verify_lem c =
      let (bad, e, rules) = board_verify_lem board g game.digits game.cells in
      elim (Bool-cases bad) [
        | inl t ↦ verify_broken c (inl (λ s. absurd (cc (rules.1 s)))) (rw t at e)
        | inr f ↦ elim (Bool-cases (is_invalid board.status)) [
          | inl old ↦
              (let st = is_invalid_lem board.status old in
                verify_broken c (inr st) (rw f at e ∙ ground arith))
          | inr fine ↦ verify_fine c (rules.0 f) (λ x. absurd (cc (ap is_invalid x))) (rw f at e)
        ]
      ]

  pub reset_lem : self.command ≡ b'R' → Serves o g self board p (process_reset self board p)
  unfolding process_reset
  reset_lem c =
      let (buf, e, n, cells) = board_reset_lem p board o game.buffers game.text game.puzzle in
      let p1 = print p (codes "Tablero reiniciado.") in
      let game' : IsGame o o (record board { board = buf; status = ok }) =
        with_cells o g o board buf ok game n cells game.puzzle_digits (λ i j h ne. refl)
          (λ x. cc) in
      let (text, outs, sent, pic, acc) =
        server_send_board_lem p1 (record board { board = buf; status = ok }) o game'.digits
          game'.cells a in
      record {
        self' = self;
        board' = record board { board = buf; status = ok };
        p' = pictured p1 outs text;
        g' = o;
        reply = text;
        returns = rw (e, sent);
        game = game';
        replied = record { sends = refl; accepting = acc; unread = refl };
        answer = restarted c refl refl pic;
      }

  pub get_lem : self.command ≡ b'G' → Serves o g self board p (process_get self board p)
  unfolding process_get
  get_lem c =
      let (text, outs, sent, pic, acc) = server_send_board_lem p board g game.digits game.cells a in
      record {
        self' = self;
        board' = board;
        p' = pictured p outs text;
        g' = g;
        reply = text;
        returns = rw sent;
        game = game;
        replied = record { sends = refl; accepting = acc; unread = refl };
        answer = shown c refl refl pic;
      }

  pub default_lem :
      (s : Server)
      → self.command ≢ b'P'
      → self.command ≢ b'V'
      → self.command ≢ b'R'
      → self.command ≢ b'G'
      → Serves o g self board p (process_default s board p)
  unfolding process_default
  default_lem s np nv nr ng =
      let (outs, sent, acc) = protocol_send_string_lem p msg_invalid_cmd (omega arith) a in
      record {
        self' = s;
        board' = board;
        p' = told p outs msg_invalid_cmd;
        g' = g;
        reply = msg_invalid_cmd;
        returns = rw sent;
        game = game;
        replied = record { sends = refl; accepting = acc; unread = refl };
        answer = unknown np nv nr ng refl refl refl;
      }

  pub put_lem :
      self.command ≡ b'P'
      → InGrid self.row self.col
      → self.value ≤ 9
      → Serves o g self board p (process_put self board p)
  put_lem c h v = elim (Bool-cases (o self.row self.col == 48)) [
    | inl t ↦ put_written c h v (ground arith)
    | inr f ↦ put_refused c h (ground arith)
  ]

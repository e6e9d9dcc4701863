-- ===== src/Sudoku/Server/Handle.antt =====
-- `server_process_command` of tp1_sockets/server.c on a game in progress.
use programming_workshop.Common.{ℕ, ◌≤◌, ◌≡◌, inl, inr, arith, ◌==◌, Bool-cases}
use programming_workshop.Sudoku.Socket.{Process}
use programming_workshop.Sudoku.Socket.Send.{Accepting}
use programming_workshop.Sudoku.Board.{Board}
use programming_workshop.Sudoku.Board.Cells.{InGrid}
use programming_workshop.Sudoku.State.{Server}
use programming_workshop.Sudoku.Server.{server_process_command}
use programming_workshop.Sudoku.Server.Game.{IsGame, Serves}
use programming_workshop.Sudoku.Server.Answers.{
  put_lem, verify_lem, reset_lem, get_lem, default_lem,
}

-- Whatever command a client sends to a game in progress, as long as a 'P' names a cell of the grid
-- and a value up to 9: if no call of send() fails, the handler returns, that is, it meets no
-- undefined behaviour, it sends exactly one framed string, and the game goes on with the given
-- cells unchanged. What it answers and how the cells and the status change is what `Answer` says:
-- a 'P' writes an empty cell of the puzzle and shows the board, or is refused; a 'V' is answered
-- by "OK" if the cells keep the rules of Sudoku and no verification failed before, else by
-- "ERROR"; an 'R' brings the puzzle back; a 'G' shows the board; all else, also an 'E', is
-- answered by the message for an invalid command.
pub server_process_command_lem :
    (o g : ℕ → ℕ → ℕ) (self : Server) (board : Board) (p : Process)
    → IsGame o g board
    → Accepting p.outcomes
    → (self.command ≡ b'P' → InGrid self.row self.col × (self.value ≤ 9))
    → Serves o g self board p (server_process_command self board p)
unfolding server_process_command
server_process_command_lem o g self board p game a fits = elim (Bool-cases (self.command == b'P')) [
  | inl t ↦
      (let c : self.command ≡ b'P' = ground arith in
        rw t (put_lem o g self board p game a c (fits c).0 (fits c).1))
  | inr np ↦ elim (Bool-cases (self.command == b'V')) [
    | inl t ↦ rw (np, t) (verify_lem o g self board p game a (ground arith))
    | inr nv ↦ elim (Bool-cases (self.command == b'R')) [
      | inl t ↦ rw (np, nv, t) (reset_lem o g self board p game a (ground arith))
      | inr nr ↦ elim (Bool-cases (self.command == b'G')) [
        | inl t ↦ rw (np, nv, nr, t) (get_lem o g self board p game a (ground arith))
        | inr ng ↦ elim (Bool-cases (self.command == b'E')) [
          | inl t ↦
              rw (np, nv, nr, ng, t)
                (default_lem o g self board p game a _ (ground arith) (ground arith) (ground arith)
                  (ground arith))
          | inr ne ↦
              rw (np, nv, nr, ng, ne)
                (default_lem o g self board p game a _ (ground arith) (ground arith) (ground arith)
                  (ground arith))
        ]
      ]
    ]
  ]
]

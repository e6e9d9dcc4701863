-- ===== src/Sudoku/State.antt =====
-- The records of tp1_sockets/client.h and server.h.
use programming_workshop.Common.{ℕ}

pub data ClientStatus : Type 0 where
  ok command_valid command_invalid endgame connected eof_reached invalid_index : ClientStatus

pub record Client : Type 0 where
  pub command : ℕ
  pub row : ℕ
  pub col : ℕ
  pub value : ℕ
  pub status : ClientStatus

pub data ServerStatus : Type 0 where
  ok command_invalid disconnected_client : ServerStatus

pub record Server : Type 0 where
  pub command : ℕ
  pub row : ℕ
  pub col : ℕ
  pub value : ℕ
  pub status : ServerStatus

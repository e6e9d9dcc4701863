-- ===== src/Sudoku.antt =====
-- The Sudoku game of tp1_sockets.
pub mod Socket
pub mod Board
pub mod State
pub mod Protocol
pub mod Server
pub mod Client
pub mod Game
mod Tests

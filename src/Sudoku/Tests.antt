-- ===== src/Sudoku/Tests.antt =====
-- Runs of tp1_sockets on concrete inputs, and instances of the theorems about it.
pub mod Puzzle
mod Wire
mod Boards
mod Lines
mod Games

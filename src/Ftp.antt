-- ===== src/Ftp.antt =====
-- The FTP server of tp3_ftp_multiclient_server, which keeps a set of names of directories.
pub mod Result
pub mod Strings
pub mod Directories
pub mod Config
pub mod Error
pub mod Socket
pub mod Connection
pub mod Protocol
pub mod Command
pub mod Server
pub mod Threads
pub mod Client
pub mod Dialogue
pub mod Main
mod Tests

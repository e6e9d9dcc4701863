-- ===== src/Lib.antt =====
-- The programs of this repository, modelled with the theorems that make them correct.
--
-- tp1_sockets is a game of Sudoku for one client and one server over TCP. The player types lines;
-- the client (client.c) makes them commands and sends them (protocol.c) over a socket (socket.c); the
-- server (server.c) reads them, changes its board (board.c) and answers each by one string, which the
-- client prints. sudoku.c holds the two loops, main.c the exit code.
--
-- tp3_ftp_multiclient_server is a server in C++ that speaks a part of FTP with several clients and keeps a set of
-- names of directories. Each client has a thread (common_server.cpp) that receives lines
-- (common_protocol.cpp, common_socket.cpp), makes them commands (common_command.cpp) and answers with the texts
-- of a configuration file (common_config.cpp). The acceptor's thread starts these threads and keeps a list of
-- the clients; the main thread waits for the line `q` and then closes them all.
--
-- Which file models what:
--   Common           bytes, C strings, atoi() and printf("%d"), fgets() and strtok_r(), signed numbers,
--                    counted loops, bits: what the programs use of the C language and its library
--   Sudoku.Socket    tp1_sockets/socket.c and socket.h. recv() and send() are lists of what successive
--                    calls do, `Arrival` and `Outcome`: every split of a stream, and every failure.
--                    Socket.Setup has the calls that set a socket up, and the address list as a
--                    pointer that is indeterminate, allocated or freed
--   Sudoku.Board     tp1_sockets/board.c and board.h: two buffers of 200 bytes and a status
--   Sudoku.State     client_t of client.h and server_t of server.h
--   Sudoku.Protocol  tp1_sockets/protocol.c
--   Sudoku.Server    tp1_sockets/server.c and server.h. Server.Game says what a client is promised
--   Sudoku.Client    tp1_sockets/client.c and client.h
--   Sudoku.Game      tp1_sockets/sudoku.c, sudoku.h and main.c
--   Sudoku.Tests     runs on concrete inputs, and instances of the theorems
--   Ftp.Result       how a call of tp3_ftp_multiclient_server ends: it returns, throws, is undefined, or goes on
--   Ftp.Strings      the order of std::string
--   Ftp.Directories  the set of directories in common_server.cpp; Directories.Refinement says what is promised
--   Ftp.Config       common_config.cpp
--   Ftp.Error        common_error.cpp
--   Ftp.Socket       common_socket.cpp but for send and receive: what the system calls return is a record,
--                    and the object carries the open descriptors and the life of the address list
--   Ftp.Connection   send_string and receive_string, on send and receive of common_socket.cpp
--   Ftp.Protocol     the constructor of common_protocol.cpp
--   Ftp.Command      Command.h and create_command of common_command.cpp
--   Ftp.Server       send_response of every command, and respond_query, send_hello and respond_client of
--                    common_server.cpp. Server.Promised says what each command is answered and
--                    Server.Conversation what a client is promised for a whole conversation
--   Ftp.Threads      run_server, close_dead_sockets, close_all_sockets, stop and quit of common_server.cpp with
--                    the calls of common_client.cpp on a client's thread and socket. Threads.Steps has the
--                    interleavings, as a step relation on the state that the threads share, and
--                    Threads.Linear has the calls on the directories that they make and Threads.Whole the
--                    rounds of a single thread
--   Ftp.Client       common_client.cpp: Client.Run has what the client does on its connection, and
--                    Client.Program the whole of run_client
--   Ftp.Dialogue     the client and the server on one connection
--   Ftp.Main         server_main.cpp
--   Ftp.Tests        runs on concrete inputs, and instances of the theorems
-- A function of the source is the definition of its name. It takes the state it changes, `Process`
-- for the socket, the standard streams and the system, `Board`, `Server`, `Client`, and returns them
-- changed; `none` is undefined behaviour: an access out of bounds, a null or indeterminate pointer,
-- a shift by an invalid amount.
--
-- Numbers are natural numbers with the wrap of the source's types written out: `uint8_t` and `char` below
-- 256, the latter read as signed, `short` and `int` as bit patterns where bits are set. Loops over
-- sockets and over the board run on fuel: one more than the bytes wanted in `skt_receive` and
-- `skt_send`, 82 for the 81 cells of `server_send_board`, one more than the bytes to come in `serve`,
-- and for the two loops of the client two more than the bytes of its input; Game.Input and Game.Play
-- are about that bound. The configuration's loop has two more than the bytes of the file. The loops of
-- receive_string, respond_client, quit and the FTP client's run_client have nothing that bounds them and take
-- their fuel as an argument.
--
-- The threads of the FTP server share the directories under a mutex and the flag of one socket. A step
-- of their interleavings is the greeting, one query, or the end of a client's thread; the acceptance of a client;
-- and a socket shut down or a thread joined. Between them only LIST takes the mutex of the directories
-- twice, and these two reads are one step. The vector of the acceptor's threads grows by a function that is a
-- parameter, and a growth makes the pointers into it dangle; what recv() still gives on a socket that is shut
-- down is a parameter too. join() of a thread that goes on waits: the call is `unfinished`.
--
-- Not modelled: what the operating system does behind its calls, the failure of malloc(), the buffering of
-- stdio, the text of an exception behind its first part where it is thrown (Ftp.Error has the whole), the
-- second close() of the acceptor's descriptor, client_main.cpp of
-- tp3_ftp_multiclient_server, which only calls run_client, and that client without its arguments. The signal
-- of send() to a peer that has closed is a result of -1, and isdigit() of a negative char, which is
-- undefined, is false.
pub mod Common
pub mod Sudoku
pub mod Ftp

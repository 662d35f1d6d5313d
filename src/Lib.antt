-- ===== src/Lib.antt =====
-- A model of CLOUD_SYS: a cloud drive whose clients send TLV packets over TCP, and a server whose
-- files and directories are rows of a MySQL table, whose main thread runs the short commands and
-- whose thread pool runs the long ones.
--
-- The parts, and the files of the repository that they model:
-- - CString: the functions of the C library that the programs call on strings.
-- - PathStack: the directory stack of server/func_cd.c (`stack_init`, `stack_push`, `stack_pop`,
--   `stack_clear`). PathStack.Spec says which list of names the array stands for.
-- - Database: `db_query` of server/func_db.c. The MySQL client library is the parameter `Mysql`.
-- - Cd: `dir_cd` of server/func_cd.c, which calls PathStack and Database. Cd.Directory states what it
--   relies on of the database, and Cd.Resolve what a path means.
-- - Clients: the table of clients of server/main.c.
-- - Tlv: the packets of server/password_auth_server.c and server/tlv.c.
-- - Users: the salts and the statements on accounts of server/password_auth_server.c.
-- - Dir: the directory commands of server/func_dir.c, server/func_ls.c and server/path.c. Dir.Table
--   states what `mkdir`, `ls` and `rmdir` rely on of the table.
-- - File: the file commands of server/func_file.c. The file system and SHA-1 are the parameter
--   `Files`; File.Keeping states what an upload and a later download rely on of it. File.Resume is
--   the resumed download; the calls that it makes on open files are the
--   parameter `Io`.
-- - Sessions: the tables of logins and registrations under way of server/solve_command.c.
-- - Commands: `solve_command` of server/solve_command.c and `long_solve_command` of
--   server/long_solve_command.c, which call Users, Cd, Dir and File.
-- - Queue: the linked list of long commands of server/task_queue.c, with its nodes on a heap.
--   Queue.Refinement says which list of commands it stands for.
-- - Dispatch: what the event loop of server/main.c does with a new connection and with a readable
--   one; it calls Clients, Tlv and Commands. Its queue is the list that Queue stands for.
--   Dispatch.Turn is the loop: the sweep once a second, and the events of each round.
-- - Pool: the thread pool of server/thread_pool.c and server/worker.c, and the steps of
--   server/main.c that submit a command and set the exit flag, as a step relation: what is done
--   under the mutex is one step, and `Steps` are the interleavings.
-- - Client: the packets of client/tlv.c (Client.Wire), the dialogues of client/client_logic.c
--   (Client.Login, Client.Files, and Client.Loop with the loop of commands) and the menu of
--   client/password_auth_client.c (Client.Menu).
--   Client.Talk runs a dialogue against `solve_command`, each packet through the sender's and the
--   receiver's functions; Client.LoginTalk and Client.Cd compose a login and one "cd" or many
--   with the server, and Client.Session a login with what follows it.
-- - Net: server/tcp.c, server/epoll.c and the connections of the client. The calls of the operating
--   system are the parameter `Net`.
-- - Start: `db_init` and `db_close` of server/func_db.c, and `main` of server/main.c up to its loop.
--   The calls that make a connection to the database are the parameter `Dbms`.
-- - Old: server/old_main.c and server/old_solve_command.c, where they differ from the present code.
-- - Program: the whole server, with the main thread of Dispatch.Turn and the workers of Pool as one
--   step relation on the state that they share.
--
-- Strings are lists of bytes, without the terminating NUL; string literals are UTF-8. A read through
-- a NULL pointer, or a write outside an array, is a result of its own, after which nothing is said of
-- the process; the one NUL that `get_encrypted_password` writes behind 128 bytes is left out. A
-- command takes `send_tlv` as a call that returns, and the model follows the server only as long as
-- these calls do: `send` raises SIGPIPE, which ends the process, on a socket that is not connected
-- (the listening socket that server/long_solve_command.c makes for data) and, behind a reset, on one
-- whose peer has gone. `sent` lists what was handed to `send_tlv` and not what has reached a client.
-- A client that the sweep drops is sent the six bytes "closed", leaves the epoll set and is closed,
-- which is one entry of the table's list `closed`. Descriptors, sizes and times are natural numbers,
-- and so are the counters `client_count` and `size`, which are ints of the source;
-- directory ids are integers. The output that the server prints for debugging is left out.
--
-- Loops over arrays recur on the slots that are left, and loops over the wire on what the calls of
-- `send` and `recv` will return; they need no fuel. `copy_loop` has fuel, one round for each byte to
-- transfer, since a round that goes on transfers a byte or more; `print_queue` has as much as its
-- caller gives, one round for each node and one for the end. The digits of a number are printed with
-- one round for each unit of it.
--
-- Not modelled: the process that waits for a signal. What the two threads of the server share
-- besides the queue (the MySQL connection, `current_username`) is interleaved by whole events of
-- the main thread and whole long commands: each of them is one step of Program. The client's
-- `recv` before each prompt, which drops what has arrived, is modelled as harmless where nothing
-- has, and as the end of what is said where something has. The old client
-- client/old_client_login.c, the copied header and the trial server/path_test.c are no part of the
-- programs that the Makefiles build.
mod Base
pub mod CString
pub mod PathStack
pub mod Database
pub mod Cd
pub mod Clients
pub mod Tlv
pub mod Users
pub mod Dir
pub mod File
pub mod Sessions
pub mod Commands
pub mod Queue
pub mod Dispatch
pub mod Pool
pub mod Client
pub mod Net
pub mod Start
pub mod Program
pub mod Old

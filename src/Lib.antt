-- ===== src/Lib.antt =====
-- TinyHTTP: models and proofs for the HTTP servers of this repository.
--
-- version_01/httpd.c is a server with a thread for each client. accept_request reads the request
-- line with get_line, takes method, URL and query apart, looks the path up with stat, and answers
-- with a fixed reply, with a file (server_file, cat), or with what a script writes (execute_cgi).
-- Httpd/Line models get_line and the loops over header lines, Httpd/RequestLine the request line,
-- Httpd/Replies the fixed replies, Httpd/File server_file and cat, Httpd/Cgi execute_cgi,
-- Httpd/Accept accept_request, Httpd/Main startup and main; the modules below each hold its
-- proofs, and Httpd/Tests runs and instances.
--
-- State. A client's socket is a record (Httpd/Types) of the bytes still to be read, the bytes sent
-- and whether the descriptor is open; a function that changes it returns the new one. recv of a
-- byte takes the next byte of the stream and fails at its end. The operating system is a
-- parameter, the record Host: what stat and fopen say of a path, whether pipe and fork succeed,
-- and how a script ends that is run with an environment and an input that stays open: it writes
-- something and exits, it never ends (the result timeout), or it stops reading, and a write to it
-- ends the server by a signal (the result fault). What the stack holds before a local is written
-- is the parameter Junk.
--
-- version_02 is a server whose threads each wait on an epoll instance. Epoll models epoll.c for
-- one client: what the instance watches it for. Handler models handle_request.c: get_url_method,
-- recv_http, the replies, and in handle the loop of wait_task for one event; Handler/States is the
-- acceptance of a client in http.c, and Handler/Dispatch is the loop of main in http.c. There what
-- is received, the buffer it is received into, the file system and the success of each write are
-- parameters.
--
-- Log models log.c of version_02: the linked list of messages (init_log_thread, push_log, and the
-- part of log_work that takes the head off) on an explicit heap of cells, where each function is
-- what one thread does with the lock held, and add_logbuf. The text that strerror gives is a
-- parameter.
--
-- Config models config.c of version_02: init_conf on the bytes of the configuration file, where
-- none stands for a file that fopen cannot open, and init_default_conf.
--
-- HttpConn models http/http_conn.cpp of version_03: HttpConn/Types the data and the set-up of a
-- connection, HttpConn/Line parse_line and read_once, HttpConn/Parse the request line, the headers
-- and the body, HttpConn/Request do_request, HttpConn/Reply process_write, HttpConn/Send write,
-- and HttpConn/Process the loop of process_read and process. A pointer into the read buffer is an
-- index; the file system and the data base are the record Host; each outcome of writev is given by
-- a list. The loop of process_read has fuel for two rounds for each byte read and two more.
--
-- Locks, ConnectionPool and ThreadPool model lock/lock.h, CGImysql/sql_connection_pool.cpp and
-- threadpool/threadpool.h of version_03. A section with a lock held is one step. ThreadPool/System
-- interleaves the threads of the pool, each at a point of its loop in run (Pc), with the thread
-- that calls append, in any order; ThreadPool/System/Invariant counts what the threads hold, and
-- ThreadPool/System/Safety and Connected draw the conclusions. The client library of the data base
-- is the record Mysql.
--
-- Server models main.cpp of version_03: the event loop over the connections (HttpConn), the timers
-- (TimerList) and the queue of requests (ThreadPool). The answers of the system to an event are an
-- argument, and what the theorems assume of them is the record IsFair in Server/Loop/Handle. A
-- list of timers has rounds for MAX_FD timers and one more, and the invariant bounds the list by
-- MAX_FD.
--
-- ServerLog models log/log.cpp of version_03: init and write_log, with the formatted message, the
-- time and fopen as arguments.
--
-- BlockQueue models log/block_queue.h of version_03: the ring buffer between the threads that log
-- and the thread that writes.
--
-- TimerList models timer/lst_timer.h of version_03: the list of timers on an explicit heap of
-- cells, where delete empties a cell; add_timer, adjust_timer, del_timer and tick. The loops run
-- on fuel, a round for each timer and one more.
--
-- Memory. A character array is the list of its bytes (Libc/Arrays); reading or writing outside it
-- is the result fault, which stands for any undefined behaviour, so that a theorem that a function
-- returns says that its accesses are in bounds. A C string is the bytes before a NUL. Libc also
-- models what the servers use of the C library: isspace, strcmp, atoi, printing with %d; fgets
-- stands in Httpd/File.
--
-- Bounds. Loops over input run on fuel: a round for each byte that is left and two more for the
-- header loops, a round for each byte of the file and one more for cat. Running out is the result
-- timeout, and the theorems below on termination show that the loops do not.
--
-- Integers. Numbers are naturals; where a sum or a difference can leave its type, it is written
-- out: the unsigned counters of ConnectionPool modulo 2^32, bytes_to_send of HttpConn by the 32
-- bits of its int, and an int that overflows is the result fault. Not modelled: the pipes between
-- server and script as bounded buffers (what they lead to is an ending of the script), data races
-- (reads of a size outside a lock are atomic steps), the scheduling of the threads of version_01,
-- save for their first read of client_sock, and of version_02, the set-up of sockets and signals,
-- partial writes of version_02, and of version_03 the edge-triggered variant, initmysql_result,
-- the thread that writes the queue of the log, and what a thread of the pool does to a connection
-- while the event loop runs, save for its close_conn.
pub mod Prelude
pub mod Libc
pub mod Httpd
pub mod Epoll
pub mod Handler
pub mod Log
pub mod Config
pub mod HttpConn
pub mod BlockQueue
pub mod TimerList
pub mod Locks
pub mod ConnectionPool
pub mod ThreadPool
pub mod Server
pub mod ServerLog

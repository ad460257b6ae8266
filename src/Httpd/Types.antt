-- ===== src/Httpd/Types.antt =====
-- What the thread of version_01/httpd.c that serves one client sees of the system.
use tiny_http.Prelude.{ℕ, Bool, false, List, Option, ◌++◌, Bytes}
use tiny_http.Libc.{Buf}

-- A connected stream socket: the bytes that the peer sends up to the end of its stream and that
-- are not yet read, the bytes sent to it, and whether the descriptor is open. `recv` of one byte
-- takes the next byte of `input`, and fails at the end.
pub record Sock : Type 0 where
  pub input : Bytes
  pub output : Bytes
  pub is_open : Bool

-- a socket with this input and this output
abbrev pub sock : Bytes → Bytes → Bool → Sock
sock input output is_open = record { input = input; output = output; is_open = is_open }

-- `send`; the source ignores what it returns
abbrev pub send : Sock → Bytes → Sock
send s bytes = record s { output = s.output ++ bytes }

abbrev pub close : Sock → Sock
close s = record s { is_open = false }

-- How a script ends that gets some bytes on its input, while the server holds the other end of that
-- pipe open and reads the output only behind the last of them.
pub data ScriptRun : Type 0 where
  -- it takes all the bytes, exits, and has written these
  finishes : Bytes → ScriptRun
  -- it does not come to an end: it waits for the end of its input, writes on for ever, or fills the
  -- pipe of its output while the server is still writing
  hangs : ScriptRun
  -- it exits before all the bytes are written to it, and the next write ends the server (SIGPIPE)
  stops_reading : ScriptRun

-- The operating system, as the requests meet it.
pub record Host : Type 0 where
  -- `st_mode` of a path, if `stat` succeeds
  pub stat : Bytes → Option ℕ
  -- the content of a file, if `fopen(path, "r")` succeeds
  pub fopen : Bytes → Option Bytes
  -- whether the two calls of `pipe` and the call of `fork` succeed
  pub first_pipe : Bool
  pub second_pipe : Bool
  pub forks : Bool
  -- the program at a path, run with these environment strings and these bytes on its input; where
  -- `execl` fails, the child exits and writes nothing
  pub script : Bytes → List Bytes → Bytes → ScriptRun

-- What the stack holds before the locals without an initialiser are written: `buf` of
-- `accept_request`, and `c` of `execute_cgi`.
pub record Junk : Type 0 where
  pub buf : Buf
  pub c : ℕ

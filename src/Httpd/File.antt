-- ===== src/Httpd/File.antt =====
-- `server_file` and `cat` of version_01/httpd.c.
pub mod Send
pub mod Serve
use tiny_http.Prelude.{
  ℕ, zero, suc, ◌+◌, Bool, true, false, List, [], ◌∷◌, Option, none, some, Bytes, length, Run, done,
  fault, timeout, ◌>>=◌, ◌==◌, if◌then◌else◌, replicate,
}
use tiny_http.Libc.{Buf, c_string}
use tiny_http.Httpd.Types.{Sock, send, Host}
use tiny_http.Httpd.Line.{discard}
use tiny_http.Httpd.Replies.{not_found, headers}

-- What `fgets` reads: the bytes stored, those left in the file, and the end-of-file indicator. It
-- stops behind a newline, when `room` bytes are stored, or at the end of the file.
pub record Chunk : Type 0 where
  pub text : Bytes
  pub rest : Bytes
  pub eof : Bool

unfoldable pub fgets : ℕ → Bytes → Chunk
fgets zero file = record { text = []; rest = file; eof = false }
fgets (suc room) [] = record { text = []; rest = []; eof = true }
fgets (suc room) (b ∷ file) =
    let next = fgets room file in
    if b == b'\n'
    then record { text = b ∷ []; rest = file; eof = false }
    else record next { text = b ∷ next.text }

-- The loop of `cat`, from a call of `fgets` on; `buf` holds 1024 bytes, one of them the NUL.
unfoldable pub cat_loop : ℕ → Sock → Bytes → Run Sock
cat_loop zero s file = timeout
cat_loop (suc fuel) s file =
    let chunk = fgets 1023 file in
    let next = cat_loop fuel (send s (c_string chunk.text)) chunk.rest in
    if chunk.eof then done s else next

-- Every round takes a byte at least, so these rounds are enough.
unfoldable pub cat : Sock → Bytes → Run Sock
cat s file = cat_loop (length file + 1) s file

-- `char buf[1024] = "A"`
abbrev pub buf_a : Buf
buf_a = b'A' ∷ replicate 1023 0

-- `fclose` of the null pointer is undefined.
send_file : Sock → Option Bytes → Run Sock
send_file s none = fault
send_file s (some file) = cat (headers s) file

unfoldable pub server_file : Host → Sock → Bytes → Run Sock
unfolding send_file
server_file host s path = do
  rest ← discard (length s.input + 2) 1 buf_a 1024 s.input
  send_file (record s { input = rest }) (host.fopen path)

-- ===== src/Httpd/Cgi.antt =====
-- `execute_cgi` of version_01/httpd.c, by its parts in order.
pub mod Length
pub mod Script
pub mod Total
use tiny_http.Prelude.{
  ℕ, zero, suc, ◌+◌, Bool, true, false, List, [], ◌∷◌, ◌++◌, Option, none, some, Bytes, length,
  drop, Run, done, fault, timeout, ◌>>=◌, ◌==◌, ltb, if◌then◌else◌, codes, not, ◌&&◌,
}
use tiny_http.Prelude.Int.{ℤ, pos, negsuc, to_nat}
use tiny_http.Libc.{Buf, store, str_eq, atoi, print_int}
use tiny_http.Httpd.Types.{Sock, send, ScriptRun, finishes, hangs, stops_reading, Host, Junk}
use tiny_http.Httpd.Line.{get_line, discard}
use tiny_http.Httpd.File.{buf_a}
use tiny_http.Httpd.Replies.{bad_request, cannot_execute}
use tiny_http.Httpd.RequestLine.{Request}

-- `buf[15] = '\0'`, the test for "Content-Length:", and the number from `buf[16]` on
scan_header : Buf → ℤ → Run (Buf × ℤ)
scan_header buf length = do
  buf' ← store buf 15 0
  found ← str_eq (codes "Content-Length:") buf'
  if found then (do n ← atoi (drop 16 buf'); done (buf', n)) else done (buf', length)

-- The loop over a POST request's header lines, by rounds; `numchars` and `buf` are those of the
-- line read last.
unfoldable pub read_length : ℕ → ℕ → Buf → ℤ → Bytes → Run (ℤ × Bytes)
unfolding scan_header
read_length zero numchars buf length input = timeout
read_length (suc fuel) numchars buf length input =
    let next = (do
      (buf', n) ← scan_header buf length
      g ← get_line input buf' 1024
      read_length fuel g.count g.buf n g.rest) in
    elim (ltb 0 numchars) [
      | false ↦ done (length, input)
      | true ↦ do blank ← str_eq (b'\n' ∷ []) buf; if blank then done (length, input) else next
    ]

-- What is read of the header, by method: the content length (-1 if there is none), and the input
-- that is left.
unfoldable pub read_header : Request → Bytes → Run (ℤ × Bytes)
read_header r input =
    if r.is_get
    then (do rest ← discard (length input + 2) 1 buf_a 1024 input; done (negsuc 0, rest))
    else (do
      g ← get_line input buf_a 1024
      read_length (length input + 2) g.count g.buf (negsuc 0) g.rest)

-- `sprintf` into an array of 255 bytes
sprintf_env : Bytes → Run Bytes
sprintf_env text = if ltb (length text) 255 then done text else fault

-- a null pointer is no string
query_text : Option Bytes → Run Bytes
query_text none = fault
query_text (some q) = done q

-- the strings that the child puts into its environment
unfoldable pub environment : Request → ℤ → Run (List Bytes)
unfolding sprintf_env query_text
environment r length = do
  method ← sprintf_env (codes "REQUEST_METHOD=" ++ r.method)
  second ←
      if r.is_get
      then (do q ← query_text r.query; sprintf_env (codes "QUERY_STRING=" ++ q))
      else sprintf_env (codes "CONTENT_LENGTH=" ++ print_int length)
  done (method ∷ second ∷ [])

-- `for (...) { recv(client_sock, &c, 1, 0); write(input[1], &c, 1); }` by rounds: what goes to the
-- child, and the input that is left. A failed `recv` leaves `c` as it was.
unfoldable pub copy_body : ℕ → ℕ → Bytes → Bytes × Bytes
copy_body zero c input = ([], input)
copy_body (suc n) c [] = let (body, rest) = copy_body n c [] in (c ∷ body, rest)
copy_body (suc n) c (b ∷ input) = let (body, rest) = copy_body n b input in (b ∷ body, rest)

-- `while (read(output[0], &c, 1) > 0) send(client_sock, &c, 1, 0);`
unfoldable pub relay : Sock → Bytes → Sock
relay s [] = s
relay s (b ∷ bs) = relay (send s (b ∷ [])) bs

-- What the server reads of the script's output, behind the last write to its input.
unfoldable pub read_output : Sock → ScriptRun → Run Sock
unfolding relay
read_output s (finishes output) = done (relay s output)
read_output s hangs = timeout
read_output s stops_reading = fault

-- Behind the calls of `pipe` and `fork`, in both processes. Both send the status line, the child
-- before its `execl` and the server before its first `read`, so that the script's output is behind
-- both; an array that overflows, does so in the child.
unfoldable pub run_script : Host → Junk → Sock → Request → ℤ → Run Sock
run_script host junk s r length = do
  env ← environment r length
  let from_server = send s (codes "HTTP/1.1 200 OK\r\n")
  let s' = send from_server (codes "HTTP/1.1 200 OK\r\n")
  let (body, rest) = copy_body (if r.is_get then 0 else to_nat length) junk.c s'.input
  read_output (record s' { input = rest }) (host.script r.path env body)

unfoldable pub is_minus_one : ℤ → Bool
is_minus_one (pos n) = false
is_minus_one (negsuc n) = n == 0

unfoldable pub execute_cgi : Host → Junk → Sock → Request → Run Sock
unfolding is_minus_one
execute_cgi host junk s r = do
  (length, rest) ← read_header r s.input
  let s' = record s { input = rest }
  if not r.is_get && is_minus_one length
      then done (bad_request s')
      else if not (host.first_pipe && host.second_pipe && host.forks)
      then done (cannot_execute s')
      else run_script host junk s' r length

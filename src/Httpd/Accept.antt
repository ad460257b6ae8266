-- ===== src/Httpd/Accept.antt =====
-- `accept_request` of version_01/httpd.c: the thread that serves one client.
pub mod Outcome
pub mod Total
use Prim.Native.Nat.{bit_and}
use tiny_http.Prelude.{
  ℕ, zero, suc, ◌+◌, Bool, true, false, List, [], ◌∷◌, ◌++◌, Option, none, some, Bytes, length,
  drop, Run, done, fault, timeout, ◌>>=◌, ◌==◌, ◌||◌, ltb, if◌then◌else◌, codes, not,
}
use tiny_http.Httpd.Types.{Sock, send, close, Host, Junk}
use tiny_http.Httpd.Line.{Got, get_line, discard}
use tiny_http.Httpd.File.{server_file}
use tiny_http.Httpd.Cgi.{execute_cgi}
use tiny_http.Httpd.Replies.{unimplemented, not_found}
use tiny_http.Httpd.RequestLine.{Request, parse_request}

-- `(st.st_mode & S_IXUSR) || (st.st_mode & S_IXGRP) || (st.st_mode & S_IXOTH)`
unfoldable pub is_executable : ℕ → Bool
is_executable mode =
    not (bit_and mode 0o100 == 0) || not (bit_and mode 0o010 == 0) || not (bit_and mode 0o001 == 0)

-- from `stat` on, at its result; `g` is the request line
unfoldable pub respond : Host → Junk → Sock → Got → Request → Option ℕ → Run Sock
respond host junk s g r none = do
  rest ← discard (length s.input + 2) g.count g.buf 1024 s.input
  done (close (not_found (record s { input = rest })))
respond host junk s g r (some mode) = do
  s' ← if r.cgi || is_executable mode then execute_cgi host junk s r else server_file host s r.path
  done (close s')

-- An unknown method returns before `close`.
unfoldable pub dispatch : Host → Junk → Sock → Got → Option Request → Run Sock
dispatch host junk s g none = done (unimplemented s)
dispatch host junk s g (some r) = respond host junk s g r (host.stat r.path)

unfoldable pub accept_request : Host → Junk → Sock → Run Sock
accept_request host junk s = do
  g ← get_line s.input junk.buf 1024
  r ← parse_request g.buf g.count
  dispatch host junk (record s { input = g.rest }) g r

-- ===== src/HttpConn/Process.antt =====
-- `process_read` and `process` of version_03/http/http_conn.cpp.
pub mod Body
pub mod Total
use tiny_http.Prelude.{
  ℕ, zero, suc, ◌+◌, ◌-◌, ◌*◌, ◌/◌, ◌%◌, ◌^◌, ◌<◌, ◌≤◌, ◌≡◌, ◌≢◌, ◌↔◌, ◌⊎◌, inl, inr, refl, sym, ap,
  ◌∙◌, subst, Bool, true, false, List, [], ◌∷◌, ◌++◌, append_assoc, append-nil, Bytes, length,
  length-append, take, drop, length-drop, Run, Option, some, none, replicate, done, fault, timeout,
  ◌>>=◌, >>=-eq-done, >>=-ne-timeout, arith, Bool-cases, leb, ltb, lt→ltb, not, ◌&&◌, ◌||◌, ◌==◌,
  if◌then◌else◌, codes, String,
}
use tiny_http.HttpConn.Types.{
  HttpConn, CheckState, check_state_requestline, check_state_header, check_state_content, HttpCode,
  no_request, get_request, bad_request, LineStatus, line_ok, line_bad, line_open, epollin, epollout,
  modfd, close_conn,
}
use tiny_http.HttpConn.Line.{parse_line}
use tiny_http.HttpConn.Parse.{parse_request_line, parse_headers, parse_content}
use tiny_http.HttpConn.Request.{Host, Users, do_request}
use tiny_http.HttpConn.Reply.{process_write}

abbrev Answer : Type 0
Answer = HttpCode × HttpConn × Users

-- What a round of the loop comes to: an answer, or the status of the line for the next test.
pub data Round : Type 0 where
  returns : HttpCode → HttpConn → Users → Round
  continues : LineStatus → HttpConn → Round

unfoldable pub requested : Run Answer → Run Round
requested m = do r ← m; done (returns r.0 r.1 r.2)

-- What follows the parsing of the request line or of a header.
unfoldable pub after_line : Host → Users → HttpCode → HttpConn → Run Round
after_line host users bad_request c = done (returns bad_request c users)
after_line host users get_request c = requested (do_request host users c)
after_line host users code c = done (continues line_ok c)

unfoldable pub after_content : Host → Users → HttpCode → HttpConn → Run Round
after_content host users get_request c = requested (do_request host users c)
after_content host users code c = done (continues line_open c)

-- The body of the loop for the line at index `text`.
unfoldable pub parse_in : Host → Users → CheckState → HttpConn → ℕ → Run Round
parse_in host users check_state_requestline c text = do
  r ← parse_request_line c text
  after_line host users r.0 r.1
parse_in host users check_state_header c text = do
  r ← parse_headers c text
  after_line host users r.0 r.1
parse_in host users check_state_content c text = do
  r ← parse_content c text
  after_content host users r.0 r.1

unfoldable pub round : Host → Users → HttpConn → Run Round
round host users c =
    parse_in host users c.check_state (record c { start_line = c.checked_idx }) c.start_line

abbrev pub in_content : CheckState → Bool
in_content check_state_content = true
in_content _ = false

abbrev pub is_ok : LineStatus → Bool
is_ok line_ok = true
is_ok _ = false

-- A round that returns ends the loop.
abbrev pub go_on : (LineStatus → HttpConn → Run Answer) → Round → Run Answer
go_on again (returns code c users) = done (code, c, users)
go_on again (continues status c) = again status c

-- The loop, from its test on, with the status of the line.
unfoldable pub process_loop : ℕ → Host → Users → LineStatus → HttpConn → Run Answer
process_loop zero host users status c = timeout
process_loop (suc fuel) host users status c = do
  line ← (if in_content c.check_state && is_ok status then done (line_ok, c) else parse_line c)
  let body = (do r ← round host users line.1; go_on (process_loop fuel host users) r)
  if is_ok line.0 then body else done (no_request, line.1, users)

-- Of two rounds that follow each other one takes a byte at least off what is unread: two rounds for
-- each byte and two more are enough.
unfoldable pub process_read : Host → Users → HttpConn → Run Answer
process_read host users c = process_loop (2 * c.read_idx + 2) host users line_ok c

abbrev reply : HttpCode → HttpConn → HttpConn
reply code c =
    let (written, c') = process_write c code in
    modfd (if written then c' else close_conn c') epollout

unfoldable pub process : Host → Users → HttpConn → Run (HttpConn × Users)
unfolding process_read
process host users c = do
  r ← process_read host users c
  let answered : HttpConn = (elim r.0 [ no_request ↦ modfd r.1 epollin | code ↦ reply code r.1 ])
  done (answered, r.2)

-- ===== src/Handler.antt =====
-- version_02/bin/handle_request.c: the replies and the work of a thread on one client.
pub mod Parse
pub mod Reply
pub mod States
pub mod Dispatch
mod Tests
use tiny_http.Prelude.{
  ℕ, zero, suc, ◌+◌, ◌-◌, ◌^◌, Bool, true, false, not, ◌&&◌, ◌||◌, List, [], ◌∷◌, ◌++◌, Option,
  none, some, Bytes, String, length, drop, codes, Run, done, fault, timeout, ◌>>=◌, ◌==◌, ltb, leb,
  if◌then◌else◌,
}
use tiny_http.Prelude.Int.{ℤ, pos, negsuc}
use tiny_http.Libc.{Buf, c_string, ends_with, print_int}
use tiny_http.Epoll.{HttpRequest, Event, epollin, epollout, LogEntry, Client, epoll_mod, close}

-- A token of the request, and the part of the header behind `i`.
pub record Word : Type 0 where
  pub text : Bytes
  pub after : Buf

-- `while (header[i] != ' ' && i < size && j < n) token[j++] = header[i++];`: `room` is `n - j`,
-- `left` is `size - i`, and the list is `header` from `i` on.
unfoldable pub copy_word : ℕ → ℕ → Buf → Run Word
copy_word room left [] = fault
copy_word zero left (c ∷ cs) = done (record { text = []; after = c ∷ cs })
copy_word (suc room) zero (c ∷ cs) = done (record { text = []; after = c ∷ cs })
copy_word (suc room) (suc left) (c ∷ cs) =
    let next = (do w ← copy_word room left cs; done (record w { text = c ∷ w.text })) in
    if c == b' ' then done (record { text = []; after = c ∷ cs }) else next

-- `token[j] = '\0'` in an array of `n` bytes
unfoldable pub end_word : ℕ → Word → Run Word
end_word n w = if ltb (length w.text) n then done w else fault

-- `while (header[i] == ' ') i++;`
unfoldable pub skip_blanks : Buf → Run Buf
skip_blanks [] = fault
skip_blanks (c ∷ cs) = let next = skip_blanks cs in if c == b' ' then next else done (c ∷ cs)

-- an upper-case ASCII letter as lower-case
abbrev lower : ℕ → ℕ
lower c = if leb b'A' c && leb c b'Z' then c + 32 else c

-- whether `p` (in lower case) stands at the head of the string in the buffer; the string ends at
-- its NUL
unfoldable pub prefix_at : Bytes → Buf → Run Bool
prefix_at [] b = done true
prefix_at (p ∷ ps) [] = fault
prefix_at (p ∷ ps) (c ∷ cs) = elim (lower c == p) [ true ↦ prefix_at ps cs | false ↦ done false ]

-- `strcasestr(header, p) != NULL`, for `p` without NUL: a buffer without a NUL is read past its end
unfoldable pub strcasestr : Bytes → Buf → Run Bool
strcasestr p [] = fault
strcasestr p (c ∷ cs) =
    let later = strcasestr p cs in
    let here = (do found ← prefix_at p (c ∷ cs); if found then done true else later) in
    if c == 0 then done false else here

-- The new `method`, `url` and `alive` of `get_url_method`.
pub record Parsed : Type 0 where
  pub method : Bytes
  pub url : Bytes
  pub alive : Bool

unfoldable pub get_url_method : Buf → ℕ → Run Parsed
get_url_method header size = do
  m ← copy_word 32 size header
  method ← end_word 32 m
  at_url ← skip_blanks method.after
  u ← copy_word 128 (size - (length header - length at_url)) at_url
  url ← end_word 128 u
  alive ← strcasestr (codes "keep-alive") header
  done (record { method = method.text; url = url.text; alive = alive })

-- What `recv` of up to 10240 bytes gives: `n` bytes, the end of the stream, or an error.
pub data Received : Type 0 where
  bytes : ℕ → Received
  closed failed : Received

push_log : Client → String → ℕ → Client
push_log c text grade = record c { log = c.log ++ record { text = codes text; grade = grade } ∷ [] }

-- `buf` filled by `recv`, from the test of `n` on; `n` is unsigned, so an error's -1 is 2 ^ 64 - 1
-- and passes both tests.
parse_http : Client → Buf → ℕ → Run Client
parse_http c buf n = do
  p ← get_url_method buf n
  let request = record c.request { method = p.method; url = p.url; alive = p.alive }
  done (epoll_mod (record c { request = request }) epollout)

unfoldable pub recv_http : Client → Received → Buf → Run Client
unfolding push_log parse_http
recv_http c (bytes n) buf = parse_http c buf n
recv_http c closed buf = done (close (push_log c ": socket connect close\n\n" 0))
recv_http c failed buf = parse_http c buf (2 ^ 64 - 1)

-- The system behind a reply: `st_size` and whether it is a directory, if `stat` succeeds; a file's
-- content, if it opens; which of the two calls of `write` and of `sendfile` succeed (a call that
-- succeeds sends all its bytes); and `conf.doc`.
pub record Files : Type 0 where
  pub stat : Bytes → Option (ℕ × Bool)
  pub content : Bytes → Option Bytes
  pub writes_header : Bool
  pub writes_body : Bool
  pub sends_file : Bool
  pub doc : Bytes

abbrev pub http_405_keep : Bytes
http_405_keep =
    codes
      "HTTP/1.1 405 Request not allow\r\nConnection: keep-alive\r\nServer: dblank/1.0.0\r\nContent-Type: text/html\r\nContent-Length : 76\r\n\r\n"

abbrev pub http_405_nonkeep : Bytes
http_405_nonkeep =
    codes
      "HTTP/1.1 405 Request not allow\r\nConnection: close\r\nServer: dblank/1.0.0\r\nContent-Type: text/html\r\nContent-Length : 76\r\n\r\n"

abbrev pub body_405 : Bytes
body_405 = codes "<html> <h1>Hahahaha, we only accept GET because the maker is too low!</h1>\r\n"

send : Client → Bytes → Client
send c text = record c { output = c.output ++ text }

unfoldable pub write_405 : Files → Client → Client
unfolding push_log send
write_405 files c =
    let header = if c.request.alive then http_405_keep else http_405_nonkeep in
    let c' =
      if files.writes_header then send c header else push_log c ": faile to write header\n\n" 2 in
    if files.writes_body then send c' body_405 else push_log c' ": fail to write body\n\n" 2

unfoldable pub http_200 : Bool → ℕ → Bytes
http_200 true n =
    codes
      "HTTP/1.1 200 OK\r\nConnection: Keep-Alive\r\nKeep-Alive: timeout=30\r\nContent-Type: text/html\r\nContent-Length: "
    ++ (print_int (pos n) ++ codes "\r\n\r\n")
http_200 false n =
    codes "HTTP/1.1 200 OK\r\nContent-Type: text/html\r\nContent-Length: "
    ++ (print_int (pos n) ++ codes "\r\n\r\n")

-- from `open` on
send_content : Files → Client → Option Bytes → Client × Bool
send_content files c none = (push_log c ": fail to open filename\n\n" 2, false)
send_content files c (some content) =
    if files.sends_file
    then (send c content, true)
    else (push_log c ": fail to sendfile\n\n" 2, false)

-- The flag is true for the result 0, false for -1.
write_existing : Files → Client → Bytes → Option (ℕ × Bool) → Client × Bool
write_existing files c path none = (write_405 files c, false)
write_existing files c path (some (size, is_dir)) =
    if is_dir
    then (write_405 files c, false)
    else if files.writes_header
    then send_content files (send c (http_200 c.request.alive size)) (files.content path)
    else (push_log c ": fail to write\n\n" 2, false)

unfoldable pub write_200 : Files → Client → Bytes → Client × Bool
unfolding push_log send send_content write_existing
write_200 files c path = write_existing files c path (files.stat path)

unfoldable pub check_alive : Client → Client
check_alive c = if c.request.alive then epoll_mod c epollin else close c

-- `strcasecmp(s, "GET") == 0`
unfoldable pub is_get : Bytes → Bool
is_get (a ∷ b ∷ c ∷ []) = lower a == b'g' && lower b == b'e' && lower c == b't'
is_get _ = false

-- `char path[128]` from `conf.doc` and the URL; `strcpy` and `strcat` beyond it are undefined
unfoldable pub file_path : Bytes → Bytes → Run Bytes
file_path doc url =
    let path = doc ++ url in
    let full = if ends_with b'/' path then path ++ codes "index.html" else path in
    if ltb (length full) 128 then done full else fault

-- `strcasecmp`, `strlen` and `strcat` stop at a NUL, which `get_url_method` may have copied.
unfoldable pub send_http : Files → Client → Run (Client × Bool)
send_http files c =
    let url = c_string c.request.url in
    let served = (do
      path ← file_path files.doc url
      let (c', sent) = write_200 files c path
      done (check_alive c', sent)) in
    if is_get (c_string c.request.method) && not (length url == 0)
    then served
    else done (check_alive (write_405 files c), false)

-- What the environment does to a client that is watched, and what the loop in `wait_task` then
-- calls.
pub data Action : Type 0 where
  readable : Received → Buf → Action
  writable : Action

log_reply : Client × Bool → Run Client
log_reply (c, true) = done (push_log c ": return 200\n\n" 0)
log_reply (c, false) = done (push_log c ": return 405\n\n" 0)

unfoldable pub handle : Files → Client → Action → Run Client
unfolding log_reply push_log
handle files c (readable r buf) = recv_http c r buf
handle files c writable = do x ← send_http files c; log_reply x

-- ===== src/HttpConn/Line.antt =====
-- `parse_line` and `read_once` of version_03/http/http_conn.cpp.
pub mod Resume
use tiny_http.Prelude.{
  ℕ, zero, suc, ◌+◌, ◌-◌, ◌*◌, ◌/◌, ◌%◌, ◌^◌, ◌<◌, ◌≤◌, ◌≡◌, ◌≢◌, ◌↔◌, ◌⊎◌, inl, inr, refl, sym, ap,
  ◌∙◌, subst, Bool, true, false, List, [], ◌∷◌, ◌++◌, append_assoc, append-nil, Bytes, length,
  length-append, take, drop, length-drop, Run, Option, some, none, replicate, done, fault, timeout,
  ◌>>=◌, >>=-eq-done, >>=-ne-timeout, arith, Bool-cases, leb, ltb, lt→ltb, not, ◌&&◌, ◌||◌, ◌==◌,
  if◌then◌else◌, codes, String,
}
use tiny_http.Libc.{Buf, load, store}
use tiny_http.HttpConn.Types.{HttpConn, LineStatus, line_ok, line_bad, line_open, read_buffer_size}

-- What `parse_line` leaves: its result, the buffer, and `m_checked_idx`.
pub record Scanned : Type 0 where
  pub status : LineStatus
  pub buf : Buf
  pub checked : ℕ

-- two bytes set to NUL
abbrev pub blank_two : Buf → ℕ → ℕ → Run Buf
blank_two buf i j = do b ← store buf i 0; store b j 0

-- the branch of '\r' at index `i`
unfoldable pub at_cr : Buf → ℕ → ℕ → Run Scanned
at_cr buf read_idx i =
    let ending = (do
      next ← load buf (i + 1)
      let blanked = (do
        buf' ← blank_two buf i (i + 1)
        done (record { status = line_ok; buf = buf'; checked = i + 2 }))
      if next == b'\n'
          then blanked
          else done (record { status = line_bad; buf = buf; checked = i })) in
    if i + 1 == read_idx
    then done (record { status = line_open; buf = buf; checked = i })
    else ending

-- the branch of '\n' at index `i`
unfoldable pub at_lf : Buf → ℕ → Run Scanned
at_lf buf i =
    let bad : Run Scanned = done (record { status = line_bad; buf = buf; checked = i }) in
    let ending = (do
      before ← load buf (i - 1)
      let blanked = (do
        buf' ← blank_two buf (i - 1) i
        done (record { status = line_ok; buf = buf'; checked = i + 1 }))
      if before == b'\r' then blanked else bad) in
    if ltb 1 i then ending else bad

-- The loop, with a round for each index below `m_read_idx`.
unfoldable pub scan_line : ℕ → Buf → ℕ → ℕ → Run Scanned
scan_line zero buf read_idx i = done (record { status = line_open; buf = buf; checked = i })
scan_line (suc rounds) buf read_idx i = do
  temp ← load buf i
  let next = scan_line rounds buf read_idx (i + 1)
  if temp == b'\r' then at_cr buf read_idx i else if temp == b'\n' then at_lf buf i else next

unfoldable pub parse_line : HttpConn → Run (LineStatus × HttpConn)
parse_line c = do
  r ← scan_line (c.read_idx - c.checked_idx) c.read_buf c.read_idx c.checked_idx
  done (r.status, record c { read_buf = r.buf; checked_idx = r.checked })

-- the bytes `s` written over an array from index `i` on
abbrev overwrite : ℕ → Bytes → Buf → Buf
overwrite i s b = take i b ++ (s ++ drop (i + length s) b)

-- `read_once`: what waits at the socket is `some` bytes, no bytes where the client has closed, and
-- `none` where `recv` fails; `recv` takes as much as there is room for. `none` stands for false: the
-- caller closes the connection, and nothing reads what is left in the object before `init`.
unfoldable pub read_once : HttpConn → Option Bytes → Option HttpConn
read_once c none = none
read_once c (some waiting) =
    let got = take (read_buffer_size - c.read_idx) waiting in
    if leb read_buffer_size c.read_idx || length got == 0
    then none
    else some (record c {
      read_buf = overwrite c.read_idx got c.read_buf;
      read_idx = c.read_idx + length got;
    })

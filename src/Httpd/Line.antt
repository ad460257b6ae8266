-- ===== src/Httpd/Line.antt =====
-- `get_line` of version_01/httpd.c, and the loop that reads a request's header lines and drops
-- them (in `accept_request`, `server_file` and `execute_cgi`).
pub mod Shape
pub mod Safety
pub mod Headers
use tiny_http.Prelude.{
  ℕ, zero, suc, ◌+◌, ◌-◌, Bool, true, false, not, ◌&&◌, List, [], ◌∷◌, Bytes, Run, done, fault,
  timeout, ◌>>=◌, ltb, ◌==◌, if◌then◌else◌,
}
use tiny_http.Libc.{Buf, load, store, str_eq}

-- What `get_line` leaves: its result, the buffer, and the input that is still unread.
pub record Got : Type 0 where
  pub count : ℕ
  pub buf : Buf
  pub rest : Bytes

-- `buf[i] = '\0'; return i;`
terminate : Buf → ℕ → Bytes → Run Got
terminate buf i rest = do buf' ← store buf i 0; done (record { count = i; buf = buf'; rest = rest })

-- `buf[i - 2] = '\n'; i--;` and then the same, at `i = k + 2`
terminate_replaced : Buf → ℕ → Bytes → Run Got
terminate_replaced buf k rest = do buf' ← store buf k b'\n'; terminate buf' (suc k) rest

-- The `while` loop, at the values of `i` and `c`. A failed `recv` sets `c` to '\n', which ends it.
pub read_loop : Bytes → Buf → ℕ → ℕ → ℕ → Run Got
read_loop [] buf size i c = done (record { count = i; buf = buf; rest = [] })
read_loop (b ∷ input) buf size i c =
    let next = (do buf' ← store buf i b; read_loop input buf' size (i + 1) b) in
    if ltb i (size - 1) && not (c == b'\n')
    then next
    else done (record { count = i; buf = buf; rest = b ∷ input })

-- The test and the replacement of "\r\n" behind the loop, at `i`; `buf[i - 2]` is read only if
-- `buf[i - 1]` is '\n'. With `i` below 1 or 2 that reads in front of the array.
strip_at : ℕ → Buf → Bytes → Run Got
strip_at zero buf rest = fault
strip_at (suc zero) buf rest = do
  last ← load buf 0
  if last == b'\n' then fault else terminate buf 1 rest
strip_at (suc (suc k)) buf rest = do
  last ← load buf (suc k)
  before ← if last == b'\n' then load buf k else done 0
  if before == b'\r' then terminate_replaced buf k rest else terminate buf (suc (suc k)) rest

unfoldable pub get_line : Bytes → Buf → ℕ → Run Got
unfolding read_loop strip_at terminate terminate_replaced
get_line input buf size = do g ← read_loop input buf size 0 0; strip_at g.count g.buf g.rest

-- `while (numchars > 0 && strcmp("\n", buf)) numchars = get_line(...)`, by rounds.
unfoldable pub discard : ℕ → ℕ → Buf → ℕ → Bytes → Run Bytes
discard zero numchars buf size input = timeout
discard (suc fuel) numchars buf size input =
    let next = (do g ← get_line input buf size; discard fuel g.count g.buf size g.rest) in
    elim (ltb 0 numchars) [
      | false ↦ done input
      | true ↦ do blank ← str_eq (b'\n' ∷ []) buf; if blank then done input else next
    ]

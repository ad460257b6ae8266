-- ===== src/HttpConn/Parse.antt =====
-- `parse_request_line`, `parse_headers` and `parse_content` of version_03/http/http_conn.cpp. Each takes the
-- index that its `text` points to. The messages to the log are left out.
pub mod Halting
use tiny_http.Prelude.{
  ℕ, suc, ◌+◌, ◌-◌, true, [], ◌∷◌, ◌++◌, Bytes, length, drop, Run, Option, some, none, done, fault,
  ◌>>=◌, leb, ltb, ◌==◌, if◌then◌else◌, codes,
}
use tiny_http.Prelude.Int.{ℤ, pos, negsuc}
use tiny_http.Libc.{
  Buf, load, store, is_blank, find, strspn, string, same_case, starts_case, store_all, atol, to_int,
  int_max,
}
use tiny_http.HttpConn.Types.{
  HttpConn, get, post, HttpCode, no_request, get_request, bad_request, check_state_header,
  check_state_content,
}

-- What stands from index `i` on.
abbrev pub at : HttpConn → ℕ → Buf
at c i = drop i c.read_buf

abbrev answer : HttpConn → HttpCode → Run (HttpCode × HttpConn)
answer c code = done (code, c)

-- `*p++ = '\0'` at the blank found `k` bytes behind `i`: where the pointer points then
abbrev cut : HttpConn → ℕ → ℕ → Run HttpConn
cut c i k = do buf ← store c.read_buf (i + k) 0; done (record c { read_buf = buf })

-- The method at `text`.
unfoldable pub read_method : HttpConn → ℕ → Run (Option HttpConn)
read_method c text = do
  is_get ← same_case (codes "GET") (at c text)
  is_post ← same_case (codes "POST") (at c text)
  done (
      if is_get
      then some (record c { method = get })
      else if is_post
      then some (record c { method = post; cgi = true })
      else none)

abbrev offset : ℕ → Option ℕ → Option ℕ
offset i none = none
offset i (some k) = some (i + k)

-- `p += n; p = strchr(p, '/')` where the string at `p` starts with the scheme
unfoldable pub skip_scheme : Bytes → HttpConn → Option ℕ → Run (Option ℕ)
skip_scheme scheme c none = fault
skip_scheme scheme c (some url) = do
  starts ← starts_case scheme (at c url)
  let host = url + length scheme
  let skipped = (do found ← find (λ b. b == b'/') (at c host); done (offset host found))
  if starts then skipped else done (some url)

-- The end of `parse_request_line`, from the test of the first byte of the URL on.
unfoldable pub check_url : HttpConn → Option ℕ → Run (HttpCode × HttpConn)
check_url c none = answer (record c { url = none }) bad_request
check_url c (some url) = do
  first ← load c.read_buf url
  path ← string (at c url)
  let c' = record c { url = some url }
  let judge = (do
    buf ← store_all c.read_buf (url + 1) (codes "judge.html" ++ 0 ∷ [])
    answer (record c' { read_buf = buf; check_state = check_state_header }) no_request)
  let accepted =
      (if length path == 1
        then judge
        else answer (record c' { check_state = check_state_header }) no_request)
  if first == b'/' then accepted else answer c' bad_request

-- From the version on, which stands `k` blanks behind the index `i`.
unfoldable pub check_version : HttpConn → ℕ → ℕ → Run (HttpCode × HttpConn)
check_version c url version = do
  blanks ← strspn is_blank (at c version)
  let c' = record c { version = some (version + blanks) }
  ok ← same_case (codes "HTTP/1.1") (at c (version + blanks))
  let rest = (do
    url' ← skip_scheme (codes "http://") c' (some url)
    url'' ← skip_scheme (codes "https://") c' url'
    check_url c' url'')
  if ok then rest else answer c' bad_request

-- The URL, behind the method and one blank.
unfoldable pub split_url : HttpConn → ℕ → Run (HttpCode × HttpConn)
split_url c i = do
  blanks ← strspn is_blank (at c i)
  let url = i + blanks
  let c' = record c { url = some url }
  found ← find is_blank (at c url)
  elim found [
    | none ↦ answer (record c' { version = none }) bad_request
    | some k ↦ (do cut_off ← cut c' url k; check_version cut_off url (url + k + 1))
  ]

unfoldable pub parse_request_line : HttpConn → ℕ → Run (HttpCode × HttpConn)
parse_request_line c text = do
  found ← find is_blank (at c text)
  elim found [
    | none ↦ answer (record c { url = none }) bad_request
    | some k ↦ (do
      cut_off ← cut (record c { url = some (text + k + 1) }) text k
      accepted ← read_method cut_off text
      elim accepted [ none ↦ answer cut_off bad_request | some c' ↦ split_url c' (text + k + 1) ])
  ]

-- the value of a header whose name has `n` bytes
abbrev value_at : HttpConn → ℕ → Run ℕ
value_at c i = do blanks ← strspn is_blank (at c i); done (i + blanks)

unfoldable pub connection_header : HttpConn → ℕ → Run HttpConn
connection_header c i = do
  value ← value_at c i
  keep ← same_case (codes "keep-alive") (at c value)
  done (if keep then record c { linger = true } else c)

unfoldable pub length_header : HttpConn → ℕ → Run HttpConn
length_header c i = do
  value ← value_at c i
  n ← atol (at c value)
  done (record c { content_length = to_int n })

unfoldable pub host_header : HttpConn → ℕ → Run HttpConn
host_header c i = do value ← value_at c i; done (record c { host = some value })

-- A header line; one of an unknown name is only logged.
unfoldable pub one_header : HttpConn → ℕ → Run HttpConn
one_header c text = do
  connection ← starts_case (codes "Connection:") (at c text)
  content ← starts_case (codes "Content-length:") (at c text)
  host ← starts_case (codes "Host:") (at c text)
  if connection
      then connection_header c (text + 11)
      else if content
      then length_header c (text + 15)
      else if host
      then host_header c (text + 5)
      else done c

-- The empty line.
unfoldable pub end_headers : HttpConn → HttpCode × HttpConn
end_headers c = elim c.content_length [
  | pos n ↦
      if n == 0
      then (get_request, c)
      else (no_request, record c { check_state = check_state_content })
  | negsuc n ↦ (no_request, record c { check_state = check_state_content })
]

unfoldable pub parse_headers : HttpConn → ℕ → Run (HttpCode × HttpConn)
parse_headers c text = do
  first ← load c.read_buf text
  let header = (do c' ← one_header c text; answer c' no_request)
  if first == 0 then done (end_headers c) else header

-- `text[m_content_length] = '\0'`, and the string with the body
unfoldable pub end_body : HttpConn → ℕ → ℕ → Run (HttpCode × HttpConn)
end_body c text end = do
  buf ← store c.read_buf end 0
  answer (record c { read_buf = buf; string = some text }) get_request

-- The sum of the length and `m_checked_idx` is an `int`.
unfoldable pub content_of : ℤ → HttpConn → ℕ → Run (HttpCode × HttpConn)
content_of (pos n) c text =
    if ltb int_max (n + c.checked_idx)
    then fault
    else if leb (n + c.checked_idx) c.read_idx
    then end_body c text (text + n)
    else answer c no_request
content_of (negsuc n) c text =
    if leb c.checked_idx (c.read_idx + suc n)
    then (if ltb text (suc n) then fault else end_body c text (text - suc n))
    else answer c no_request

unfoldable pub parse_content : HttpConn → ℕ → Run (HttpCode × HttpConn)
parse_content c text = content_of c.content_length c text

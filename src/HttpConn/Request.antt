-- ===== src/HttpConn/Request.antt =====
-- `do_request` of version_03/http/http_conn.cpp: the page that a request is answered with.
pub mod Halting
use tiny_http.Prelude.{
  ℕ, zero, suc, ◌+◌, ◌-◌, Bool, true, false, List, [], ◌∷◌, ◌++◌, Bytes, length, take, drop, Run,
  Option, some, none, done, fault, ◌>>=◌, ltb, not, ◌&&◌, ◌||◌, ◌==◌, if◌then◌else◌, codes,
}
use tiny_http.Libc.{Buf, load, c_string, string, same_string, behind_last, strcpy}
use tiny_http.HttpConn.Types.{
  HttpConn, HttpCode, bad_request, no_resource, forbidden_request, file_request,
}
use tiny_http.HttpConn.Parse.{at}

-- What `stat` and `mmap` tell of a path; `open` and `mmap` of a file that everyone may read are
-- taken to succeed.
pub record Stat : Type 0 where
  pub others_read : Bool
  pub is_dir : Bool
  pub content : Bytes

-- The table of names and passwords.
abbrev pub Users : Type 0
Users = List (Bytes × Bytes)

-- What the server calls: the file system, and the data base, where true says that the query failed.
pub record Host : Type 0 where
  pub stat : Bytes → Option Stat
  pub query_fails : Bytes → Bool

abbrev pub doc_root : Bytes
doc_root = codes "/root/TinyHTTP/version_03/root"

unfoldable pub find_user : Bytes → Users → Option Bytes
find_user name [] = none
find_user name ((n, password) ∷ rest) = elim (same_string n name) [
  | true ↦ some password
  | false ↦ find_user name rest
]

-- `for (...; m_string[i] != stop; ++i)` into an array of 100 bytes: what was copied, and what stands
-- from the stop on. The bytes copied and their NUL fit, or it is a fault.
unfoldable pub copy_field : ℕ → ℕ → Buf → Run (Bytes × Buf)
copy_field stop room [] = fault
copy_field stop zero (c ∷ cs) = fault
copy_field stop (suc room) (c ∷ cs) =
    let more = (do r ← copy_field stop room cs; done (c ∷ r.0, r.1)) in
    if c == stop then done ([], c ∷ cs) else more

-- `user=...&passwd=...`: five bytes stand in front of the name, and ten in front of the password from
-- the '&' on, whatever they are.
unfoldable pub read_fields : Buf → Run (Bytes × Bytes)
read_fields body = do
  name ← copy_field b'&' 100 (drop 5 body)
  password ← copy_field 0 100 (drop 10 name.1)
  done (c_string name.0, password.0)

-- `malloc(200)` and copies into it
abbrev pub heap_text : Bytes → Run Bytes
heap_text s = if ltb (length s) 200 then done s else fault

unfoldable pub sql_insert : Bytes → Bytes → Bytes
sql_insert name password =
    codes "INSERT INTO user(username, passwd) VALUES('"
    ++ (name ++ (codes "', '" ++ (password ++ codes "')")))

-- The page that a registration leads to, and the table; a name that is taken is refused.
unfoldable pub register : Host → Users → Bytes → Bytes → Run (Bytes × Users)
register host users name password = do
  insert ← heap_text (sql_insert name password)
  let added = users ++ (name, password) ∷ []
  let page = if host.query_fails insert then codes "/registerError.html" else codes "/log.html"
  done (elim (find_user name users) [
    | none ↦ (page, added)
    | some _ ↦ (codes "/registerError.html", users)
  ])

abbrev login_page : Option Bytes → Bytes → Bytes
login_page none password = codes "/logError.html"
login_page (some known) password =
    if same_string known password then codes "/welcome.html" else codes "/logError.html"

unfoldable pub login : Users → Bytes → Bytes → Bytes
login users name password = login_page (find_user name users) password

-- the string that `m_string` points to, which no `init` sets
unfoldable pub body_of : HttpConn → Run Buf
body_of c = elim c.string [ none ↦ fault | some i ↦ done (at c i) ]

-- The branch for '2' and '3': `url` is the index of `path`, and `key` the digit.
unfoldable pub check_user : Host → Users → HttpConn → ℕ → Bytes → ℕ → Run (HttpConn × Users)
check_user host users c url path key = do
  real ← heap_text (b'/' ∷ drop 2 path)
  body ← body_of c
  fields ← read_fields body
  let registered = register host users fields.0 fields.1
  result ← (if key == b'3' then registered else done (login users fields.0 fields.1, users))
  buf ← strcpy c.read_buf url result.0
  done (record c { read_buf = buf; real_file = doc_root ++ take 169 real }, result.1)

-- `strncpy(m_real_file + len, page, strlen(page))`, which writes no NUL
abbrev over_page : Bytes → Bytes → Bytes
over_page real page = doc_root ++ (page ++ drop (30 + length page) real)

-- The file for the byte behind the last '/', and for the string at `m_url`.
unfoldable pub choose_file : Bytes → ℕ → Bytes → Bytes
choose_file real key path =
    if key == b'0'
    then over_page real (codes "/register.html")
    else if key == b'1'
    then over_page real (codes "/log.html")
    else if key == b'5'
    then over_page real (codes "/picture.html")
    else if key == b'6'
    then over_page real (codes "/video.html")
    else if key == b'7'
    then over_page real (codes "/fans.html")
    else doc_root ++ take 169 path

unfoldable pub open_file : Host → HttpConn → HttpCode × HttpConn
open_file host c = elim (host.stat c.real_file) [
  | none ↦ (no_resource, c)
  | some st ↦
      if not st.others_read
      then (forbidden_request, c)
      else if st.is_dir
      then (bad_request, c)
      else (file_request, record c { file = some st.content })
]

-- From the index `url` of the string `path` on, behind whose last '/' stands `name`.
unfoldable pub request_file :
    Host → Users → HttpConn → ℕ → Bytes → Bytes → Run (HttpCode × HttpConn × Users)
request_file host users c url path name = do
  let p = url + (length path - length name)
  key ← load c.read_buf p
  let based = record c { real_file = doc_root }
  let checked = check_user host users based url path key
  r ← (if c.cgi && (key == b'2' || key == b'3') then checked else done (based, users))
  key' ← load r.0.read_buf p
  path' ← string (at r.0 url)
  let answer = open_file host (record r.0 { real_file = choose_file r.0.real_file key' path' })
  done (answer.0, answer.1, r.1)

unfoldable pub do_request : Host → Users → HttpConn → Run (HttpCode × HttpConn × Users)
do_request host users c = elim c.url [
  | none ↦ fault
  | some url ↦ (do
    path ← string (at c url)
    elim (behind_last b'/' path) [
      | none ↦ fault
      | some name ↦ request_file host users c url path name
    ])
]

-- ===== src/HttpConn/Request/Halting.antt =====
-- The runs of `do_request`, of version_03/http/http_conn.cpp, and of its helpers.
use tiny_http.Prelude.{
  ℕ, zero, suc, ◌+◌, ◌-◌, [], ◌∷◌, Bytes, length, drop, done, ◌&&◌, ◌||◌, ◌==◌, if◌then◌else◌,
}
use tiny_http.Prelude.{returned, faulted, Halts, Ends-bind, Ends-if}
use tiny_http.Libc.{Buf, load, string, behind_last, strcpy}
use tiny_http.Libc.Halting.{load-Halts, string-Halts, store_all-Halts}
use tiny_http.HttpConn.Types.{HttpConn}
use tiny_http.HttpConn.Parse.{at}
use tiny_http.HttpConn.Parse.Halting.{option-Ends}
use tiny_http.HttpConn.Request.{
  doc_root, Host, Users, copy_field, read_fields, heap_text, sql_insert, register, body_of,
  check_user, request_file, do_request,
}

copy_field-Halts : (stop room : ℕ) (b : Buf) → Halts (copy_field stop room b)
unfolding copy_field
copy_field-Halts stop room [] = faulted
copy_field-Halts stop zero (c ∷ cs) = faulted
copy_field-Halts stop (suc room) (c ∷ cs) =
    Ends-if (c == stop) (returned _ tt)
      (Ends-bind (copy_field stop room cs) _ (copy_field-Halts stop room cs) (λ r _. returned _ tt))

read_fields-Halts : (b : Buf) → Halts (read_fields b)
unfolding read_fields
read_fields-Halts b =
    Ends-bind (copy_field b'&' 100 (drop 5 b)) _ (copy_field-Halts _ _ _) (λ name _.
      Ends-bind (copy_field 0 100 (drop 10 name.1)) _ (copy_field-Halts _ _ _)
        (λ r _. returned _ tt))

heap_text-Halts : (s : Bytes) → Halts (heap_text s)
heap_text-Halts s = Ends-if _ (returned _ tt) faulted

register-Halts :
    (host : Host) (users : Users) (name password : Bytes)
    → Halts (register host users name password)
unfolding register
register-Halts host users name password =
    Ends-bind (heap_text (sql_insert name password)) _ (heap_text-Halts _) (λ r _. returned _ tt)

body_of-Halts : (c : HttpConn) → Halts (body_of c)
unfolding body_of
body_of-Halts c = option-Ends c.string _ _ faulted (λ i. returned _ tt)

check_user-Halts :
    (host : Host) (users : Users) (c : HttpConn) (url : ℕ) (path : Bytes) (key : ℕ)
    → Halts (check_user host users c url path key)
unfolding check_user strcpy
check_user-Halts host users c url path key =
    Ends-bind (heap_text (b'/' ∷ drop 2 path)) _ (heap_text-Halts (b'/' ∷ drop 2 path)) (λ real _.
      Ends-bind (body_of c) _ (body_of-Halts c) (λ body _.
        Ends-bind (read_fields body) _ (read_fields-Halts body) (λ fields _.
          Ends-bind _ _
            (Ends-if (key == b'3') (register-Halts host users fields.0 fields.1) (returned _ tt))
            (λ result _.
              Ends-bind (strcpy c.read_buf url result.0) _ (store_all-Halts _ _ _)
                (λ buf _. returned _ tt)))))

request_file-Halts :
    (host : Host) (users : Users) (c : HttpConn) (url : ℕ) (path name : Bytes)
    → Halts (request_file host users c url path name)
unfolding request_file
request_file-Halts host users c url path name =
    let here : HttpConn = record c { real_file = doc_root } in
    let at_key : ℕ = url + (length path - length name) in
    Ends-bind (load c.read_buf (at_key)) _ (load-Halts c.read_buf (at_key)) (λ key _.
      Ends-bind
        (if c.cgi && (key == b'2' || key == b'3')
          then check_user host users here url path key
          else done (here, users))
        _
        (Ends-if (c.cgi && (key == b'2' || key == b'3'))
          (check_user-Halts host users here url path key) (returned (here, users) tt))
        (λ r _. Ends-bind (load r.0.read_buf at_key) _ (load-Halts r.0.read_buf at_key) (λ key' _.
          Ends-bind (string (at r.0 url)) _ (string-Halts (at r.0 url))
            (λ path' _. returned _ tt))))

pub do_request-Halts :
    (host : Host) (users : Users) (c : HttpConn) → Halts (do_request host users c)
unfolding do_request
do_request-Halts host users c = option-Ends c.url _ _ faulted (λ url.
    Ends-bind (string (at c url)) _ (string-Halts _) (λ path _.
      option-Ends (behind_last b'/' path) _ _ faulted
        (λ name. request_file-Halts host users c url path name)))

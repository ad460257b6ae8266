-- ===== src/Handler/Reply.antt =====
-- The replies of handle_request.c.
use tiny_http.Prelude.{
  ℕ, ◌≡◌, ◌≢◌, inl, inr, refl, ap, subst, Bool, true, false, [], ◌∷◌, ◌++◌, append_assoc, Bytes,
  length, Option, some, none, done, >>=-eq-done, arith, Bool-cases, not, ◌&&◌, ◌==◌,
}
use tiny_http.Libc.{c_string}
use tiny_http.Epoll.{HttpRequest, epollin, Client, epoll_mod, close}
use tiny_http.Handler.{
  Files, http_200, send, push_log, write_405, write_existing, send_content, write_200, check_alive,
  is_get, file_path, send_http,
}

-- What a reply leaves of a client: only the output and the log change.
pub record OnlySends (c c' : Client) : Type 0 where
  pub request : c'.request ≡ c.request
  pub interest : c'.interest ≡ c.interest
  pub is_open : c'.is_open ≡ c.is_open

pub write_405-OnlySends : (files : Files) (c : Client) → OnlySends c (write_405 files c)
unfolding write_405
write_405-OnlySends files c = ground arith

send_content-OnlySends :
    (files : Files) (c d : Client) (o : Option Bytes)
    → OnlySends c d
    → OnlySends c (send_content files d o).0
unfolding send_content send push_log
send_content-OnlySends files c d none h = record {
  request = h.request;
  interest = h.interest;
  is_open = h.is_open;
}
send_content-OnlySends files c d (some content) h = ground arith

write_existing-OnlySends :
    (files : Files) (c : Client) (path : Bytes) (o : Option (ℕ × Bool))
    → OnlySends c (write_existing files c path o).0
unfolding write_existing send push_log
write_existing-OnlySends files c path none = write_405-OnlySends files c
write_existing-OnlySends files c path (some (size, is_dir)) =
    let sent = record c { output = c.output ++ http_200 c.request.alive size } in
    ground (
      arith,
      write_405-OnlySends files c,
      send_content-OnlySends files c sent (files.content path)
          (record { request = refl; interest = refl; is_open = refl }),
    )

pub write_200-OnlySends :
    (files : Files) (c : Client) (path : Bytes) → OnlySends c (write_200 files c path).0
unfolding write_200
write_200-OnlySends files c path = write_existing-OnlySends files c path (files.stat path)

-- What becomes of a client after a reply.
abbrev pub After : Client → Client → Type 0
After c c' =
    (c.request.alive ≡ true → (c'.interest ≡ some epollin) × (c'.is_open ≡ c.is_open))
    × (c.request.alive ≡ false → (c'.interest ≡ none) × (c'.is_open ≡ false))

check_alive-After : (c d : Client) → c.interest ≢ none → OnlySends c d → After c (check_alive d)
unfolding check_alive epoll_mod close
check_alive-After c d h o = ground (arith, ap (λ (r : HttpRequest). r.alive) o.request)

-- After any reply, 200 or 405 and with failed writes too, a watched client that asked for keep-
-- alive is watched for reading and as open as before, and any other client is closed and no longer
-- watched.
pub send_http-After :
    (files : Files) (c : Client) {c' : Client} {sent : Bool}
    → c.interest ≢ none
    → send_http files c ≡ done (c', sent)
    → After c c'
unfolding send_http
send_http-After files c {c'} {sent} h e =
    elim (Bool-cases
      (is_get (c_string c.request.method) && not (length (c_string c.request.url) == 0))) [
        | inr refused ↦
            let e' = rw refused at e in
            let same : check_alive (write_405 files c) ≡ c' = cc in
            subst (After c) same
              (check_alive-After c (write_405 files c) h (write_405-OnlySends files c))
        | inl served ↦
            let (path, ep, f) =
              >>=-eq-done (file_path files.doc (c_string c.request.url)) _ (rw served at e) in
            let same : check_alive (write_200 files c path).0 ≡ c' = cc in
            subst (After c) same
              (check_alive-After c (write_200 files c path).0 h (write_200-OnlySends files c path))
      ]

write_200-page :
    (files : Files) (c : Client) (path content : Bytes)
    → files.stat path ≡ some (length content, false)
    → files.content path ≡ some content
    → files.writes_header ≡ true
    → files.sends_file ≡ true
    → write_200 files c path ≡ (
      record c { output = c.output ++ (http_200 c.request.alive (length content) ++ content) },
      true,
    )
unfolding write_200
write_200-page files c path content st o w s =
    rw (st, w, o, s)
      (ap (λ (z : Bytes). (record c { output = z }, true))
        (append_assoc c.output (http_200 c.request.alive (length content)) content))

url_test : (u : Bytes) → u ≢ [] → not (length u == 0) ≡ true
url_test [] h = absurd (h refl)
url_test (b ∷ u) h = ground arith

-- A GET request for a file that exists and opens, with writes that succeed, is answered with the
-- 200 header that gives the content's length, and the content.
pub send_http-page :
    (files : Files) (c : Client) (path content : Bytes)
    → is_get (c_string c.request.method) ≡ true
    → c_string c.request.url ≢ []
    → file_path files.doc (c_string c.request.url) ≡ done path
    → files.stat path ≡ some (length content, false)
    → files.content path ≡ some content
    → files.writes_header ≡ true
    → files.sends_file ≡ true
    → send_http files c
      ≡ done (
        check_alive (record c {
          output = c.output ++ (http_200 c.request.alive (length content) ++ content);
        }),
        true,
      )
unfolding send_http
send_http-page files c path content g u p st o w s =
    let test : (is_get (c_string c.request.method) && not (length (c_string c.request.url) == 0))
        ≡ true =
      ground (arith, url_test (c_string c.request.url) u) in
    rw (test, p, write_200-page files c path content st o w s) refl

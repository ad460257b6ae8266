-- ===== src/Httpd/Cgi/Script.antt =====
-- What `execute_cgi` gives to a script, and what it relays.
use tiny_http.Prelude.{
  ℕ, ◌<◌, ◌≤◌, ◌≡◌, refl, sym, ap, ◌∙◌, Bool, true, false, List, [], ◌∷◌, ◌++◌, append_assoc,
  append-nil, Bytes, length, some, done, fault, arith, not, ◌&&◌, if◌then◌else◌, codes,
}
use tiny_http.Prelude.Int.{ℤ, pos, negsuc, to_nat}
use tiny_http.Libc.{print_int, int_max}
use tiny_http.Libc.Numbers.Decimal.{length-print_int}
use tiny_http.Httpd.Types.{Sock, sock, send, finishes, Host, Junk}
use tiny_http.Httpd.RequestLine.{Request}
use tiny_http.Httpd.Replies.{bad_request}
use tiny_http.Httpd.Line.Headers.{AllHeaders, header_block}
use tiny_http.Httpd.Cgi.{
  read_header, environment, copy_body, relay, read_output, run_script, is_minus_one, execute_cgi,
}
use tiny_http.Httpd.Cgi.Length.{Scan, read_header-post, read_header-get}

copy_body-append :
    (c : ℕ) (body rest : Bytes) → copy_body (length body) c (body ++ rest) ≡ (body, rest)
unfolding copy_body
copy_body-append c [] rest = refl
copy_body-append c (b ∷ body) rest = rw (copy_body-append b body rest) refl

relay-send : (s : Sock) (bs : Bytes) → relay s bs ≡ send s bs
unfolding relay
relay-send s [] = ap (λ (o : Bytes). record s { output = o }) (sym (append-nil s.output))
relay-send s (b ∷ bs) =
    relay-send (send s (b ∷ [])) bs
    ∙ ap (λ (o : Bytes). record s { output = o }) (append_assoc s.output (b ∷ []) bs)

read_output-finishes : (s : Sock) (bs : Bytes) → read_output s (finishes bs) ≡ done (send s bs)
unfolding read_output
read_output-finishes s bs = ap (λ (r : Sock). done r) (relay-send s bs)

-- the status line as the server and the child send it
abbrev pub status_line : Bytes
status_line = codes "HTTP/1.1 200 OK\r\n"

-- What the client gets of a script that writes this.
abbrev pub script_reply : Sock → Bytes → Sock
script_reply s written = send (send (send s status_line) status_line) written

abbrev pub get_environment : Bytes → Bytes → List Bytes
get_environment method query =
    (codes "REQUEST_METHOD=" ++ method) ∷ (codes "QUERY_STRING=" ++ query) ∷ []

abbrev pub post_environment : Bytes → ℕ → List Bytes
post_environment method n =
    (codes "REQUEST_METHOD=" ++ method) ∷ (codes "CONTENT_LENGTH=" ++ print_int (pos n)) ∷ []

environment-get :
    (r : Request) (n : ℤ) (q : Bytes)
    → r.is_get ≡ true
    → r.query ≡ some q
    → length r.method < 240
    → length q < 242
    → environment r n ≡ done (get_environment r.method q)
unfolding environment
environment-get r n q g e m h = ground arith

environment-post :
    (r : Request) (n : ℕ)
    → r.is_get ≡ false
    → length r.method < 240
    → n ≤ int_max
    → environment r (pos n) ≡ done (post_environment r.method n)
unfolding environment
environment-post r n g m h = ground (arith, length-print_int n h)

environment_overflow :
    (r : Request) (n : ℤ) (q : Bytes)
    → r.is_get ≡ true
    → r.query ≡ some q
    → 242 ≤ length q
    → environment r n ≡ fault
unfolding environment
environment_overflow r n q g e h = ground arith

-- the calls of `pipe` and `fork` succeed
abbrev pub CanFork : Host → Type 0
CanFork host = (host.first_pipe && host.second_pipe && host.forks) ≡ true

module _ (host : Host) (junk : Junk) where
  run_script-env :
      (s : Sock) (r : Request) (n : ℤ) (env : List Bytes) (body rest : Bytes) (written : Bytes)
      → environment r n ≡ done env
      → copy_body (if r.is_get then 0 else to_nat n) junk.c s.input ≡ (body, rest)
      → host.script r.path env body ≡ finishes written
      → run_script host junk s r n ≡ done (script_reply (record s { input = rest }) written)
  unfolding run_script
  run_script-env s r n env body rest written e c w =
      rw (e, c, w)
        (read_output-finishes (send (send (record s { input = rest }) status_line) status_line)
          written)

  execute_cgi-run_script :
      (s : Sock) (r : Request) (n : ℤ) (rest : Bytes)
      → read_header r s.input ≡ done (n, rest)
      → (not r.is_get && is_minus_one n) ≡ false
      → CanFork host
      → execute_cgi host junk s r ≡ run_script host junk (record s { input = rest }) r n
  unfolding execute_cgi
  execute_cgi-run_script s r n rest e test can = rw (e, test, can) refl

module _ (host : Host) (junk : Junk) (r : Request) (ls : List Bytes) (output : Bytes)
    (is_open : Bool) (a : AllHeaders 1024 ls) where
  -- A POST request's script gets exactly the declared bytes behind the header and the declared
  -- length; if it ends, the client gets the status line twice and what the script writes. What the
  -- peer sends behind the body stays unread.
  pub execute_cgi-post :
      (body rest written : Bytes)
      → r.is_get ≡ false
      → length r.method < 240
      → CanFork host
      → Scan (pos (length body)) (negsuc 0) ls
      → length body ≤ int_max
      → host.script r.path (post_environment r.method (length body)) body ≡ finishes written
      → execute_cgi host junk (sock (header_block ls (body ++ rest)) output is_open) r
        ≡ done (script_reply (sock rest output is_open) written)
  execute_cgi-post body rest written p m can scan fits w =
      let test : (not r.is_get && is_minus_one (pos (length body))) ≡ false =
        unfold is_minus_one in ground arith in
      let copied : copy_body (if r.is_get then 0 else to_nat (pos (length body))) junk.c
            (body ++ rest)
          ≡ (body, rest) =
        rw p (copy_body-append junk.c body rest) in
      execute_cgi-run_script host junk (sock (header_block ls (body ++ rest)) output is_open) r
        (pos (length body)) (body ++ rest) (read_header-post r ls (body ++ rest) p a scan) test can
      ∙ run_script-env host junk (sock (body ++ rest) output is_open) r (pos (length body))
          (post_environment r.method (length body)) body rest written
          (environment-post r (length body) p m fits) copied w

  -- A POST request that declares no length is refused, and no script runs.
  pub execute_cgi-no_length :
      (rest : Bytes)
      → r.is_get ≡ false
      → Scan (negsuc 0) (negsuc 0) ls
      → execute_cgi host junk (sock (header_block ls rest) output is_open) r
        ≡ done (bad_request (sock rest output is_open))
  unfolding execute_cgi
  execute_cgi-no_length rest p scan =
      let test : (not r.is_get && is_minus_one (negsuc 0)) ≡ true = ground arith in
      rw (read_header-post r ls rest p a scan, test) refl

  -- A GET request's script gets the query in its environment, and no input; if it ends, the client
  -- gets the status line twice and what the script writes.
  pub execute_cgi-get :
      (q rest written : Bytes)
      → r.is_get ≡ true
      → r.query ≡ some q
      → length r.method < 240
      → length q < 242
      → CanFork host
      → host.script r.path (get_environment r.method q) [] ≡ finishes written
      → execute_cgi host junk (sock (header_block ls rest) output is_open) r
        ≡ done (script_reply (sock rest output is_open) written)
  execute_cgi-get q rest written p e m h can w =
      let test : (not r.is_get && is_minus_one (negsuc 0)) ≡ false =
        unfold is_minus_one in ground arith in
      let copied : copy_body (if r.is_get then 0 else to_nat (negsuc 0)) junk.c rest ≡ ([], rest) =
        rw p (copy_body-append junk.c [] rest) in
      execute_cgi-run_script host junk (sock (header_block ls rest) output is_open) r (negsuc 0)
        rest (read_header-get r ls rest p a) test can
      ∙ run_script-env host junk (sock rest output is_open) r (negsuc 0)
          (get_environment r.method q) [] rest written (environment-get r (negsuc 0) q p e m h)
          copied w

  -- A query of more than 241 bytes overflows the array `query_env` of the child.
  pub execute_cgi_overflow :
      (q rest : Bytes)
      → r.is_get ≡ true
      → r.query ≡ some q
      → 242 ≤ length q
      → CanFork host
      → execute_cgi host junk (sock (header_block ls rest) output is_open) r ≡ fault
  unfolding run_script
  execute_cgi_overflow q rest p e h can =
      let test : (not r.is_get && is_minus_one (negsuc 0)) ≡ false =
        unfold is_minus_one in ground arith in
      execute_cgi-run_script host junk (sock (header_block ls rest) output is_open) r (negsuc 0)
        rest (read_header-get r ls rest p a) test can
      ∙ rw (environment_overflow r (negsuc 0) q p e h) refl

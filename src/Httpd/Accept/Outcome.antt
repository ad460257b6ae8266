-- ===== src/Httpd/Accept/Outcome.antt =====
-- Whole requests: what `accept_request` does with a request line, header lines and what follows.
use tiny_http.Prelude.{
  ℕ, ◌+◌, ◌<◌, ◌≤◌, ◌≡◌, ◌≢◌, refl, ap, ◌∙◌, Bool, true, false, List, [], ◌∷◌, ◌++◌, append_assoc,
  Bytes, length, length-append, drop, Option, some, none, done, fault, arith, codes,
}
use tiny_http.Prelude.Int.{pos, negsuc}
use tiny_http.Libc.{Buf, int_max}
use tiny_http.Libc.Laws.{Lacks}
use tiny_http.Httpd.Types.{sock, send, close, finishes, Host, Junk}
use tiny_http.Httpd.Line.Shape.{get_line-crlf}
use tiny_http.Httpd.Line.Headers.{
  IsHeader, AllHeaders, header_block, line_buf, length-line_buf, str_eq-line_buf, discard_headers,
}
use tiny_http.Httpd.Replies.{bad_request, not_found, headers, unimplemented}
use tiny_http.Httpd.File.Send.{IsComplete}
use tiny_http.Httpd.File.Serve.{server_file_lines, server_file_missing}
use tiny_http.Httpd.RequestLine.{Request, path_of, get_request, post_request, parse_request}
use tiny_http.Httpd.RequestLine.Tokens.{IsWord}
use tiny_http.Httpd.RequestLine.Parse.{
  request_line, parse_request_unknown, parse_request-get, parse_request-post, split_query-plain,
  split_query-marked,
}
use tiny_http.Httpd.Cgi.Length.{Scan}
use tiny_http.Httpd.Cgi.Script.{
  CanFork, script_reply, get_environment, post_environment, execute_cgi-post, execute_cgi-get,
  execute_cgi-no_length, execute_cgi_overflow,
}
use tiny_http.Httpd.Accept.{is_executable, respond, dispatch, accept_request}

-- A request line that is read whole: the URL is a word that fits.
pub record IsTarget (method url version : Bytes) : Type 0 where
  pub word : IsWord url
  pub non_empty : url ≢ []
  pub fits : length url ≤ 254
  pub line : IsHeader 1024 (request_line method url version)

get_request-plain :
    (url : Bytes)
    → Lacks b'?' url
    → get_request url ≡ record {
      is_get = true;
      method = codes "GET";
      path = path_of url;
      query = some [];
      cgi = false;
    }
unfolding get_request
get_request-plain url h = rw (split_query-plain url h) refl

abbrev query_request : Bytes → Bytes → Request
query_request path query = record {
  is_get = true;
  method = codes "GET";
  path = path_of path;
  query = some query;
  cgi = true;
}

get_request-marked :
    (path query : Bytes)
    → Lacks b'?' path
    → get_request (path ++ b'?' ∷ query) ≡ query_request path query
unfolding get_request
get_request-marked path query h = rw (split_query-marked path query h) refl

-- the buffer after a request line is again one
line_buf-request_line :
    (method url version : Bytes) (buf : Buf)
    → (more : Bytes) × (line_buf (request_line method url version) buf
        ≡ request_line method url more)
line_buf-request_line method url version buf =
    let tail = b'\n' ∷ 0 ∷ drop (length (request_line method url version) + 2) buf in
    (
      version ++ tail,
      append_assoc method (b' ' ∷ (url ++ b' ' ∷ version)) tail
          ∙ ap (λ (z : Bytes). method ++ b' ' ∷ z) (append_assoc url (b' ' ∷ version) tail),
    )

module _ (host : Host) (junk : Junk) (room : 1024 ≤ length junk.buf) (output : Bytes)
    (is_open : Bool) where
  accept_request-parsed :
      (l : Bytes) (input : Bytes) {r : Option Request}
      → IsHeader 1024 l
      → parse_request (line_buf l junk.buf) (length l + 1) ≡ done r
      → accept_request host junk (sock (l ++ b'\r' ∷ b'\n' ∷ input) output is_open)
        ≡ dispatch host junk
            (sock input output is_open)
            (record { count = length l + 1; buf = line_buf l junk.buf; rest = input })
            r
  unfolding accept_request
  accept_request-parsed l input h p =
      rw (get_line-crlf l input junk.buf 1024 h.one_line h.short room, p) refl

  -- the request line of a GET request in the buffer
  parsed_get :
      (url version : Bytes)
      → IsTarget (codes "GET") url version
      → let l = request_line (codes "GET") url version in
        parse_request (line_buf l junk.buf) (length l + 1) ≡ done (some (get_request url))
  parsed_get url version t =
      let (more, e) = line_buf-request_line (codes "GET") url version junk.buf in
      rw e (
        parse_request-get url more (length (request_line (codes "GET") url version) + 1) t.word
          t.non_empty t.fits (omega (arith, length-append url (b' ' ∷ version))))

  parsed_post :
      (url version : Bytes)
      → IsTarget (codes "POST") url version
      → let l = request_line (codes "POST") url version in
        parse_request (line_buf l junk.buf) (length l + 1) ≡ done (some (post_request url))
  parsed_post url version t =
      let (more, e) = line_buf-request_line (codes "POST") url version junk.buf in
      rw e (
        parse_request-post url more (length (request_line (codes "POST") url version) + 1) t.word
          t.non_empty t.fits (omega (arith, length-append url (b' ' ∷ version))))

  -- Where the request line (of at most 1021 bytes, with a URL of 1 to 254 bytes without white
  -- space) and the header lines (of 1 to 1021 bytes each) are free of newlines and end in CR LF,
  -- and an empty line follows: a GET request without a query for a file that exists, without any
  -- execute permission, and opens, is answered with the header lines of a 200 reply and the file's
  -- complete lines (NUL-free; an unterminated last line below 1023 bytes is left out), and the
  -- socket is closed; the request's header lines are consumed and what follows them is not.
  pub accept_request-page :
      (url version : Bytes) (ls : List Bytes) (rest : Bytes) (mode : ℕ) (full tail : Bytes)
      → IsTarget (codes "GET") url version
      → Lacks b'?' url
      → AllHeaders 1024 ls
      → host.stat (path_of url) ≡ some mode
      → is_executable mode ≡ false
      → host.fopen (path_of url) ≡ some (full ++ tail)
      → IsComplete full
      → Lacks 0 full
      → Lacks b'\n' tail
      → length tail < 1023
      → accept_request host junk
          (sock (header_block (request_line (codes "GET") url version ∷ ls) rest) output is_open)
        ≡ done (close (send (headers (sock rest output is_open)) full))
  unfolding dispatch respond
  accept_request-page url version ls rest mode full tail t q a st ex op c z n k =
      accept_request-parsed (request_line (codes "GET") url version) (header_block ls rest) t.line
        (parsed_get url version t)
      ∙ rw
          (
            get_request-plain url q,
            st,
            ex,
            server_file_lines host (path_of url) ls rest output is_open full tail a op c z n k,
          )
          refl

  -- Where the request line (of at most 1021 bytes, with a URL of 1 to 254 bytes without white
  -- space) and the header lines (of 1 to 1021 bytes each) are free of newlines and end in CR LF,
  -- and an empty line follows: a GET request for a path that does not exist is answered with 404
  -- after its header lines are consumed, and the socket is closed.
  pub accept_request-not_found :
      (url version : Bytes) (ls : List Bytes) (rest : Bytes)
      → IsTarget (codes "GET") url version
      → AllHeaders 1024 ls
      → host.stat (get_request url).path ≡ none
      → accept_request host junk
          (sock (header_block (request_line (codes "GET") url version ∷ ls) rest) output is_open)
        ≡ done (close (not_found (sock rest output is_open)))
  unfolding dispatch respond
  accept_request-not_found url version ls rest t a st =
      let l = request_line (codes "GET") url version in
      let len = length-line_buf l junk.buf (omega (arith, t.line.short)) in
      accept_request-parsed l (header_block ls rest) t.line (parsed_get url version t)
      ∙ rw
          (
            st,
            discard_headers ls rest (length l + 1) (line_buf l junk.buf) a (omega arith)
                (omega (arith, len)) (str_eq-line_buf l junk.buf t.line.non_empty t.line.one_line),
          )
          refl

  -- A GET request for a file that exists, is not executable and does not open ends in undefined
  -- behaviour: fclose gets the null pointer.
  pub accept_request_missing :
      (url version : Bytes) (ls : List Bytes) (rest : Bytes) (mode : ℕ)
      → IsTarget (codes "GET") url version
      → Lacks b'?' url
      → AllHeaders 1024 ls
      → host.stat (path_of url) ≡ some mode
      → is_executable mode ≡ false
      → host.fopen (path_of url) ≡ none
      → accept_request host junk
          (sock (header_block (request_line (codes "GET") url version ∷ ls) rest) output is_open)
        ≡ fault
  unfolding dispatch respond
  accept_request_missing url version ls rest mode t q a st ex op =
      accept_request-parsed (request_line (codes "GET") url version) (header_block ls rest) t.line
        (parsed_get url version t)
      ∙ rw
          (
            get_request-plain url q,
            st,
            ex,
            server_file_missing host (path_of url) ls rest output is_open a op,
          )
          refl

  -- Where the request line (of at most 1021 bytes, with a URL of 1 to 254 bytes without white
  -- space) and the header lines (of 1 to 1021 bytes each) are free of newlines and end in CR LF,
  -- and an empty line follows: a GET request with a query of at most 241 bytes, for a path that
  -- exists, runs the file at the path before the first '?', whatever its mode, with the query in
  -- its environment and no input. If both pipes and fork succeed and the script ends, the client
  -- gets the status line twice, from the server and from the child, and what the script writes.
  pub accept_request-query :
      (path query version : Bytes) (ls : List Bytes) (rest : Bytes) (mode : ℕ) (written : Bytes)
      → IsTarget (codes "GET") (path ++ b'?' ∷ query) version
      → Lacks b'?' path
      → length query < 242
      → AllHeaders 1024 ls
      → host.stat (path_of path) ≡ some mode
      → CanFork host
      → host.script (path_of path) (get_environment (codes "GET") query) [] ≡ finishes written
      → accept_request host junk (
          sock
            (header_block (request_line (codes "GET") (path ++ b'?' ∷ query) version ∷ ls) rest)
            output
            is_open)
        ≡ done (close (script_reply (sock rest output is_open) written))
  unfolding dispatch respond
  accept_request-query path query version ls rest mode written t q k a st can w =
      let url = path ++ b'?' ∷ query in
      accept_request-parsed (request_line (codes "GET") url version) (header_block ls rest) t.line
        (parsed_get url version t)
      ∙ rw
          (
            get_request-marked path query q,
            st,
            execute_cgi-get host junk (query_request path query) ls output is_open a query rest
                written refl refl (omega arith) k can w,
          )
          refl

  -- Where the request line (of at most 1021 bytes, with a URL of 1 to 254 bytes without white
  -- space) and the header lines (of 1 to 1021 bytes each) are free of newlines and end in CR LF,
  -- and an empty line follows: a GET request for an existing path with a query of 242 bytes or
  -- more, which the URL array holds, overflows the array query_env of the child, if both pipes and
  -- fork succeed.
  pub accept_request_overflow :
      (path query version : Bytes) (ls : List Bytes) (rest : Bytes) (mode : ℕ)
      → IsTarget (codes "GET") (path ++ b'?' ∷ query) version
      → Lacks b'?' path
      → 242 ≤ length query
      → AllHeaders 1024 ls
      → host.stat (path_of path) ≡ some mode
      → CanFork host
      → accept_request host junk (
          sock
            (header_block (request_line (codes "GET") (path ++ b'?' ∷ query) version ∷ ls) rest)
            output
            is_open)
        ≡ fault
  unfolding dispatch respond
  accept_request_overflow path query version ls rest mode t q k a st can =
      let url = path ++ b'?' ∷ query in
      accept_request-parsed (request_line (codes "GET") url version) (header_block ls rest) t.line
        (parsed_get url version t)
      ∙ rw
          (
            get_request-marked path query q,
            st,
            execute_cgi_overflow host junk (query_request path query) ls output is_open a query rest
                refl refl k can,
          )
          refl

  -- Where the request line (of at most 1021 bytes, with a URL of 1 to 254 bytes without white
  -- space) and the header lines (of 1 to 1021 bytes each) are free of newlines and end in CR LF,
  -- and an empty line follows: a POST request for a path that exists, whose header lines declare
  -- its body's length (at most 2^31 - 1 bytes), runs the file at its path with exactly the body on
  -- its input and the method and length in its environment. If both pipes and fork succeed and the
  -- script ends, having taken the body, the client gets the status line twice, from the server and
  -- from the child, and what the script writes; bytes behind the body stay unread.
  pub accept_request-post :
      (url version : Bytes) (ls : List Bytes) (body rest : Bytes) (mode : ℕ) (written : Bytes)
      → IsTarget (codes "POST") url version
      → AllHeaders 1024 ls
      → Scan (pos (length body)) (negsuc 0) ls
      → length body ≤ int_max
      → host.stat (path_of url) ≡ some mode
      → CanFork host
      → host.script (path_of url) (post_environment (codes "POST") (length body)) body
        ≡ finishes written
      → accept_request host junk (
          sock
            (header_block (request_line (codes "POST") url version ∷ ls) (body ++ rest))
            output
            is_open)
        ≡ done (close (script_reply (sock rest output is_open) written))
  unfolding dispatch respond post_request
  accept_request-post url version ls body rest mode written t a scan fits st can w =
      accept_request-parsed (request_line (codes "POST") url version)
        (header_block ls (body ++ rest)) t.line (parsed_post url version t)
      ∙ rw
          (
            st,
            execute_cgi-post host junk (post_request url) ls output is_open a body rest written refl
                (omega arith) can scan fits w,
          )
          refl

  -- A POST request that declares no length is answered with 400, no script runs, and the socket is
  -- closed.
  pub accept_request-no_length :
      (url version : Bytes) (ls : List Bytes) (rest : Bytes) (mode : ℕ)
      → IsTarget (codes "POST") url version
      → AllHeaders 1024 ls
      → Scan (negsuc 0) (negsuc 0) ls
      → host.stat (path_of url) ≡ some mode
      → accept_request host junk
          (sock (header_block (request_line (codes "POST") url version ∷ ls) rest) output is_open)
        ≡ done (close (bad_request (sock rest output is_open)))
  unfolding dispatch respond post_request
  accept_request-no_length url version ls rest mode t a scan st =
      accept_request-parsed (request_line (codes "POST") url version) (header_block ls rest) t.line
        (parsed_post url version t)
      ∙ rw
          (
            st,
            execute_cgi-no_length host junk (post_request url) ls output is_open a rest refl scan,
          )
          refl

  -- A request line with a method word other than GET and POST is answered with 501 at once; the
  -- header lines stay unread and the socket is not closed.
  pub accept_request-unknown :
      (method more : Bytes) (input : Bytes)
      → IsWord method
      → length method ≤ 254
      → method ≢ codes "GET"
      → method ≢ codes "POST"
      → IsHeader 1024 (method ++ b' ' ∷ more)
      → accept_request host junk
          (sock ((method ++ b' ' ∷ more) ++ b'\r' ∷ b'\n' ∷ input) output is_open)
        ≡ done (unimplemented (sock input output is_open))
  unfolding dispatch
  accept_request-unknown method more input w h g p l =
      let line = method ++ b' ' ∷ more in
      let tail = b'\n' ∷ 0 ∷ drop (length line + 2) junk.buf in
      accept_request-parsed line input {r = none} l (
        rw (append_assoc method (b' ' ∷ more) tail)
          (parse_request_unknown method (more ++ tail) (length line + 1) w h g p))

-- ===== src/Httpd/Tests/Requests.antt =====
-- The theorems on whole requests at concrete inputs.
use tiny_http.Prelude.{
  ℕ, zero, suc, ◌+◌, ◌<◌, ◌≡◌, ◌≢◌, refl, true, List, [], ◌∷◌, ◌++◌, Bytes, length, replicate, done,
  fault, arith, codes,
}
use tiny_http.Libc.{is_space, same_string, ends_with, print_int}
use tiny_http.Libc.Laws.{Lacks}
use tiny_http.Httpd.Types.{sock, send, close}
use tiny_http.Httpd.Line.Headers.{IsHeader, AllHeaders, header_block}
use tiny_http.Httpd.Replies.{not_found, headers, unimplemented}
use tiny_http.Httpd.RequestLine.{path_of, get_request}
use tiny_http.Httpd.RequestLine.Tokens.{IsWord}
use tiny_http.Httpd.RequestLine.Parse.{request_line}
use tiny_http.Httpd.Cgi.Length.{no_more, other, declared, length_line}
use tiny_http.Httpd.Cgi.Script.{script_reply}
use tiny_http.Httpd.Accept.{accept_request, is_executable}
use tiny_http.Httpd.Accept.Outcome.{
  IsTarget, accept_request-page, accept_request-not_found, accept_request-query,
  accept_request_overflow, accept_request-post, accept_request-unknown,
}
use tiny_http.Httpd.Tests.{host, junk}

abbrev version : Bytes
version = codes "HTTP/1.1"

abbrev lines : List Bytes
lines = codes "Host: a" ∷ []

header : (l : Bytes) → l ≢ [] → Lacks b'\n' l → length l + 2 < 1024 → IsHeader 1024 l
header l n o s = record { non_empty = n; one_line = o; short = s }

lines_headers : AllHeaders 1024 lines
lines_headers = (header (codes "Host: a") (λ e. cc) (omega arith) (omega arith), tt)

-- the request for "/index.html"
page-IsTarget : IsTarget (codes "GET") (codes "/index.html") version
unfolding is_space
page-IsTarget = record {
  word = ground arith;
  non_empty = λ e. cc;
  fits = omega arith;
  line =
      header (request_line (codes "GET") (codes "/index.html") version) (λ e. cc) (omega arith)
        (omega arith);
}

accept_request-page_example :
    accept_request host junk (
      sock
        (header_block
          (request_line (codes "GET") (codes "/index.html") version ∷ lines)
          (codes "next"))
        []
        true)
    ≡ done (close (send (headers (sock (codes "next") [] true)) (codes "<p>\nhi\n")))
unfolding path_of ends_with is_executable same_string
accept_request-page_example =
    accept_request-page host junk (omega arith) [] true (codes "/index.html") version lines
      (codes "next") 0o644 (codes "<p>\nhi\n") [] page-IsTarget (omega arith) lines_headers refl
      refl refl (omega arith) (omega arith) tt (omega arith)

accept_request-not_found_example :
    accept_request host junk (
      sock
        (header_block (request_line (codes "GET") (codes "/nothing") version ∷ lines) [])
        []
        true)
    ≡ done (close (not_found (sock [] [] true)))
unfolding is_space get_request ends_with same_string
accept_request-not_found_example =
    accept_request-not_found host junk (omega arith) [] true (codes "/nothing") version lines []
      (record {
        word = ground arith;
        non_empty = λ e. cc;
        fits = omega arith;
        line =
            header (request_line (codes "GET") (codes "/nothing") version) (λ e. cc) (omega arith)
              (omega arith);
      })
      lines_headers refl

accept_request-query_example :
    accept_request host junk (
      sock
        (header_block (request_line (codes "GET") (codes "/color.cgi?red") version ∷ lines) [])
        []
        true)
    ≡ done (close (script_reply (sock [] [] true) (codes "!")))
unfolding is_space path_of ends_with same_string
accept_request-query_example =
    accept_request-query host junk (omega arith) [] true (codes "/color.cgi") (codes "red") version
      lines [] 0o755 (codes "!")
      (record {
        word = ground arith;
        non_empty = λ e. cc;
        fits = omega arith;
        line =
            header (request_line (codes "GET") (codes "/color.cgi?red") version) (λ e. cc)
              (omega arith) (omega arith);
      })
      (omega arith) (omega arith) lines_headers refl refl refl

abbrev long_query : Bytes
long_query = replicate 242 b'a'

replicate-IsWord : (n : ℕ) → IsWord (replicate n b'a')
unfolding is_space
replicate-IsWord zero = tt
replicate-IsWord (suc n) = (refl, omega arith, replicate-IsWord n)

accept_request_overflow_example :
    accept_request host junk (
      sock
        (header_block
          (request_line (codes "GET") (codes "/color.cgi" ++ b'?' ∷ long_query) version ∷ lines)
          [])
        []
        true)
    ≡ fault
unfolding is_space path_of ends_with same_string
accept_request_overflow_example =
    accept_request_overflow host junk (omega arith) [] true (codes "/color.cgi") long_query version
      lines [] 0o755
      (record {
        word = (
          refl,
          omega arith,
          (
            refl,
            omega arith,
            (
              refl,
              omega arith,
              (
                refl,
                omega arith,
                (
                  refl,
                  omega arith,
                  (
                    refl,
                    omega arith,
                    (
                      refl,
                      omega arith,
                      (
                        refl,
                        omega arith,
                        (
                          refl,
                          omega arith,
                          (refl, omega arith, (refl, omega arith, replicate-IsWord 242)),
                        ),
                      ),
                    ),
                  ),
                ),
              ),
            ),
          ),
        );
        non_empty = λ e. cc;
        fits = omega arith;
        line =
            header (request_line (codes "GET") (codes "/color.cgi" ++ b'?' ∷ long_query) version)
              (λ e. cc) (omega arith) (omega arith);
      })
      (omega arith) (omega arith) lines_headers refl refl

post-IsTarget : IsTarget (codes "POST") (codes "/color.cgi") version
unfolding is_space
post-IsTarget = record {
  word = ground arith;
  non_empty = λ e. cc;
  fits = omega arith;
  line =
      header (request_line (codes "POST") (codes "/color.cgi") version) (λ e. cc) (omega arith)
        (omega arith);
}

accept_request-post_example :
    accept_request host junk (
      sock
        (header_block
          (request_line (codes "POST") (codes "/color.cgi") version ∷ length_line 4 ∷ lines)
          (codes "abcde"))
        []
        true)
    ≡ done (close (script_reply (sock (codes "e") [] true) (codes "abcd!")))
unfolding path_of ends_with same_string print_int
accept_request-post_example =
    accept_request-post host junk (omega arith) [] true (codes "/color.cgi") version
      (length_line 4 ∷ lines) (codes "abcd") (codes "e") 0o755 (codes "abcd!") post-IsTarget
      (header (length_line 4) (λ e. cc) (omega arith) (omega arith), lines_headers)
      (declared 4 (omega arith) (other refl no_more)) (omega arith) refl refl refl

accept_request-unknown_example :
    accept_request host junk (sock (codes "PUT / HTTP/1.1\r\n\r\n") [] true)
    ≡ done (unimplemented (sock (codes "\r\n") [] true))
unfolding is_space
accept_request-unknown_example =
    accept_request-unknown host junk (omega arith) [] true (codes "PUT") (codes "/ HTTP/1.1")
      (codes "\r\n") (ground arith) (omega arith) (ground arith) (ground arith)
      (header (codes "PUT / HTTP/1.1") (λ e. cc) (omega arith) (omega arith))

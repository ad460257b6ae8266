-- ===== src/Httpd/Tests/Lines.antt =====
-- The theorems on lines, headers, files and numbers at concrete inputs.
use tiny_http.Prelude.{
  ◌+◌, ◌<◌, ◌≡◌, ◌≢◌, ◌↔◌, refl, true, false, [], ◌∷◌, ◌++◌, Bytes, length, Option, none, done,
  fault, arith, codes,
}
use tiny_http.Prelude.Int.{pos}
use tiny_http.Libc.{atoi, print_int, is_space, same_string, c_string}
use tiny_http.Libc.Numbers.Decimal.{atoi-print_int}
use tiny_http.Libc.Laws.{Lacks}
use tiny_http.Httpd.Line.{Got, get_line}
use tiny_http.Httpd.Line.Safety.{IsLine, StartsBare, get_line-IsLine, get_line-fault_iff}
use tiny_http.Httpd.Line.Headers.{IsHeader}
use tiny_http.Httpd.RequestLine.{
  Request, parse_request, copy_method, skip_spaces, copy_url, parse_url, request_of, get_request,
  split_query,
}
use tiny_http.Httpd.RequestLine.Parse.{
  IsRequest, parse_request-IsRequest, parse_request_total, split_query-marked,
}
use tiny_http.Httpd.Tests.{junk}

abbrev host_line : Bytes
host_line = codes "Host: a"

abbrev post : Request
post = record {
  is_get = false;
  method = codes "POST";
  path = codes "etc/color.cgi";
  query = none;
  cgi = true;
}

header : (l : Bytes) → l ≢ [] → Lacks b'\n' l → length l + 2 < 1024 → IsHeader 1024 l
header l n o s = record { non_empty = n; one_line = o; short = s }

get_line-fault_iff_example :
    (get_line (codes "\nrest") junk.buf 1024 ≡ fault) ↔ StartsBare (codes "\nrest")
get_line-fault_iff_example =
    get_line-fault_iff (codes "\nrest") junk.buf 1024 (omega arith) (omega arith)

get_line-IsLine_example :
    (g : Got) × (get_line (codes "GET /") junk.buf 1024 ≡ done g)
    × IsLine (codes "GET /") junk.buf 1024 g
get_line-IsLine_example =
    get_line-IsLine b'G' (codes "ET /") junk.buf 1024 (omega arith) (omega arith) (omega arith)

parse_request-IsRequest_example : IsRequest (get_request (codes "/a?b"))
unfolding parse_request copy_method skip_spaces copy_url parse_url request_of c_string same_string
    is_space
parse_request-IsRequest_example =
    parse_request-IsRequest (codes "GET /a?b HTTP/1.1\n" ++ 0 ∷ []) 18 refl

parse_request_total_example :
    (r : Option Request) × (parse_request (codes "PUT\n" ++ 0 ∷ []) 4 ≡ done r)
parse_request_total_example = parse_request_total (codes "PUT") []

split_query-marked_example :
    split_query (codes "/a?b=?") ≡ record { url = codes "/a"; query = codes "b=?"; marked = true }
split_query-marked_example = split_query-marked (codes "/a") (codes "b=?") (omega arith)

atoi-print_int_example : atoi (print_int (pos 120) ++ codes "\n") ≡ done (pos 120)
atoi-print_int_example = atoi-print_int 120 b'\n' [] (omega arith) refl

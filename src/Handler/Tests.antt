-- ===== src/Handler/Tests.antt =====
-- Runs of version_02's handler, and the theorems at concrete inputs.
use tiny_http.Prelude.{
  none, ℕ, ◌≡◌, refl, true, false, [], ◌∷◌, ◌++◌, Bytes, some, done, arith, codes,
}
use tiny_http.Libc.{c_string, ends_with, print_int}
use tiny_http.Epoll.{epollin, epollout, Client, epoll_add, epoll_mod}
use tiny_http.Handler.{
  Files, bytes, writable, http_200, check_alive, is_get, file_path, recv_http, send_http, handle,
  copy_word, end_word, skip_blanks, prefix_at, strcasestr, get_url_method, write_200,
}
use tiny_http.Handler.Parse.{get_url_method_line}
use tiny_http.Handler.Reply.{After, send_http-After}
use tiny_http.Handler.Dispatch.{Dispatch, hand_out_loop, hand_out_loop_lem, picked}
use tiny_http.Handler.States.{accept_client}

abbrev files : Files
files = record {
  stat = λ path. some (2, false);
  content = λ path. some (codes "hi");
  writes_header = true;
  writes_body = true;
  sends_file = true;
  doc = codes "../doc";
}

abbrev request : Bytes
request = codes "GET / HTTP/1.1\r\nConnection: Keep-Alive\r\n\r\n" ++ 0 ∷ []

abbrev accepted : Client
accepted = accept_client 5 [] [] []

-- the client after its request is read
abbrev asked : Client
asked = record {
  request = record { fd = 5; alive = true; method = codes "GET"; url = codes "/"; ip_port = [] };
  interest = some epollout;
  is_open = true;
  nonblocking = true;
  output = [];
  log = record { text = []; grade = 0 } ∷ [];
}

recv_http-request : recv_http accepted (bytes 42) request ≡ done asked
unfolding accept_client epoll_add recv_http get_url_method copy_word end_word skip_blanks strcasestr
    prefix_at epoll_mod
recv_http-request = refl

abbrev answer : Bytes
answer =
    codes
      "HTTP/1.1 200 OK\r\nConnection: Keep-Alive\r\nKeep-Alive: timeout=30\r\nContent-Type: text/html\r\nContent-Length: 2\r\n\r\nhi"

abbrev answered : Client
answered = record asked {
  interest = some epollin;
  output = answer;
  log = asked.log ++ record { text = codes ": return 200\n\n"; grade = 0 } ∷ [];
}

handle_writable : handle files asked writable ≡ done answered
unfolding handle send_http file_path ends_with write_200 http_200 print_int check_alive epoll_mod
    is_get c_string
handle_writable = refl

send_http-After_example : After asked (check_alive (record asked { output = answer }))
unfolding send_http file_path ends_with write_200 http_200 print_int is_get c_string
send_http-After_example = send_http-After files asked {sent = true} (λ e. cc) refl

get_url_method_line_example :
    get_url_method request 42
    ≡ done (record { method = codes "GET"; url = codes "/"; alive = true })
unfolding strcasestr prefix_at
get_url_method_line_example =
    get_url_method_line (codes "GET") (codes "/")
      (codes "HTTP/1.1\r\nConnection: Keep-Alive\r\n\r\n" ++ 0 ∷ []) 42 (omega arith) (omega arith)
      (λ e. cc) (omega arith) (omega arith) (omega arith) refl

-- Two threads; the second call of accept fails.
hand_out_loop_lem_example :
    (d' : Dispatch) × (hand_out_loop [] 2 0
        (record { clients = λ j. []; failures = 0 })
        (some (5, []) ∷ none ∷ some (6, []) ∷ [])
      ≡ done d')
    × ((j : ℕ) → d'.clients j ≡ [] ++ picked [] 2 j 0 (some (5, []) ∷ none ∷ some (6, []) ∷ []))
hand_out_loop_lem_example =
    hand_out_loop_lem [] 2 (record { clients = λ j. []; failures = 0 })
      (some (5, []) ∷ none ∷ some (6, []) ∷ []) (omega arith)

picked_first :
    picked [] 2 0 0 (some (5, []) ∷ none ∷ some (6, []) ∷ [])
    ≡ accept_client 5 [] [] [] ∷ accept_client 6 [] [] [] ∷ []
picked_first = refl

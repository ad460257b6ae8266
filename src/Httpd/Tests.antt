-- ===== src/Httpd/Tests.antt =====
-- Runs of version_01's server at small inputs.
mod Lines
mod Requests
mod Threads
use tiny_http.Prelude.{
  ℕ, zero, suc, ◌+◌, Bool, true, false, List, [], ◌∷◌, ◌++◌, Option, none, some, Bytes, length,
  drop, Run, done, fault, timeout, ◌>>=◌, ◌==◌, ◌||◌, ltb, if◌then◌else◌, codes, not, replicate,
  ◌≡◌, refl,
}
use tiny_http.Libc.{
  same_string, ends_with, atoi, print_int, store, str_eq, c_string, load, is_space,
}
use tiny_http.Httpd.Types.{Sock, send, close, finishes, Host, Junk}
use tiny_http.Httpd.Line.{Got, get_line, discard}
use tiny_http.Httpd.File.{server_file, cat, cat_loop, fgets}
use tiny_http.Httpd.Cgi.{
  execute_cgi, read_header, read_length, run_script, environment, copy_body, read_output,
}
use tiny_http.Httpd.Replies.{unimplemented, not_found, headers, bad_request}
use tiny_http.Httpd.RequestLine.{
  parse_request, copy_method, parse_url, skip_spaces, copy_url, request_of, get_request,
  post_request,
}
use tiny_http.Httpd.Accept.{accept_request, respond, dispatch, is_executable}

abbrev pub host : Host
host = record {
  stat = λ path.
      if same_string path (codes "etc/index.html")
      then some 0o644
      else if same_string path (codes "etc/color.cgi")
      then some 0o755
      else none;
  fopen = λ path. some (codes "<p>\nhi\n");
  first_pipe = true;
  second_pipe = true;
  forks = true;
  script = λ path env body. finishes (body ++ codes "!");
}

abbrev pub junk : Junk
junk = record { buf = replicate 1024 b'x'; c = 0 }

abbrev pub client : Bytes → Sock
client input = record { input = input; output = []; is_open = true }

accept_request_get :
    accept_request host junk (client (codes "GET / HTTP/1.1\r\nHost: a\r\n\r\n"))
    ≡ done (record {
      input = [];
      output =
          codes
            "HTTP/1.1 200 OK\r\nServer: tinyhttpd/1.0.0\r\nContent-Type: text/html\r\n\r\n<p>\nhi\n";
      is_open = false;
    })
unfolding accept_request get_line parse_request dispatch respond is_executable same_string
    server_file discard headers cat cat_loop fgets c_string execute_cgi store str_eq ends_with load
    copy_method is_space parse_url skip_spaces copy_url request_of get_request
accept_request_get = refl

accept_request_post :
    accept_request host junk
      (client (codes "POST /color.cgi HTTP/1.1\r\nContent-Length: 4\r\nHost: a\r\n\r\nabcde"))
    ≡ done (record {
      input = codes "e";
      output = codes "HTTP/1.1 200 OK\r\nHTTP/1.1 200 OK\r\nabcd!";
      is_open = false;
    })
unfolding accept_request get_line parse_request dispatch respond is_executable same_string
    execute_cgi store str_eq read_header read_length run_script environment copy_body read_output
    atoi print_int ends_with load copy_method c_string parse_url skip_spaces copy_url request_of
    post_request
accept_request_post = refl

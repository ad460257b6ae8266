-- ===== src/Httpd/Replies.antt =====
-- The fixed replies of version_01/httpd.c: each `sprintf`, `send` pair is a piece.
use tiny_http.Prelude.{List, [], ◌∷◌, String, codes}
use tiny_http.Httpd.Types.{Sock, send}

unfoldable pub send_all : Sock → List String → Sock
send_all s [] = s
send_all s (t ∷ ts) = send_all (send s (codes t)) ts

abbrev pub server_string : String
server_string = "Server: tinyhttpd/1.0.0\r\n"

abbrev pub unimplemented_text : List String
unimplemented_text =
    "HTTP/1.1 501 Method Not Implemented\r\n" ∷ server_string ∷ "Content-Type: text/html\r\n"
    ∷ "\r\n" ∷ "<HTML><HEAD><TITLE>Method Not Implemented\r\n" ∷ "</TITLE></HEAD>\r\n"
    ∷ "<BODY><P>HTTP request method not supported.\r\n" ∷ "</BODY></HTML>\r\n" ∷ []

unfoldable pub unimplemented : Sock → Sock
unfolding send_all
unimplemented s = send_all s unimplemented_text

abbrev pub not_found_text : List String
not_found_text =
    "HTTP/1.1 404 NOT FOUND\r\n" ∷ server_string ∷ "Content-Type: text/html\r\n" ∷ "\r\n"
    ∷ "<HTML><TITLE>Not Found</TITLE>\r\n" ∷ "<BODY><P>The server could not fulfill\r\n"
    ∷ "your request because the resource specified\r\n" ∷ "is unavailable or nonexistent.\r\n"
    ∷ "</BODY></HTML>\r\n" ∷ []

unfoldable pub not_found : Sock → Sock
unfolding send_all
not_found s = send_all s not_found_text

abbrev pub headers_text : List String
headers_text = "HTTP/1.1 200 OK\r\n" ∷ server_string ∷ "Content-Type: text/html\r\n" ∷ "\r\n" ∷ []

unfoldable pub headers : Sock → Sock
unfolding send_all
headers s = send_all s headers_text

abbrev pub bad_request_text : List String
bad_request_text =
    "HTTP/1.1 400 BAD REQUEST\r\n" ∷ "Content-type: text/html\r\n" ∷ "\r\n"
    ∷ "<P>Your browser sent a bad request, " ∷ "such as a POST without a Content-Length.\r\n" ∷ []

unfoldable pub bad_request : Sock → Sock
unfolding send_all
bad_request s = send_all s bad_request_text

abbrev pub cannot_execute_text : List String
cannot_execute_text =
    "HTTP/1.1 500 Internal Server Error\r\n" ∷ "Content-type: text/html\r\n" ∷ "\r\n"
    ∷ "<P>Error prohibited CGI execution.\r\n" ∷ []

unfoldable pub cannot_execute : Sock → Sock
unfolding send_all
cannot_execute s = send_all s cannot_execute_text

-- ===== src/Httpd/File/Serve.antt =====
-- `server_file`, for a file that opens and for one that does not.
use tiny_http.Prelude.{
  ◌+◌, ◌<◌, ◌≡◌, ◌≢◌, refl, ◌∙◌, Bool, List, ◌++◌, Bytes, length, Option, some, none, done, fault,
  timeout, >>=-ne-timeout, arith,
}
use tiny_http.Libc.{str_eq}
use tiny_http.Libc.Laws.{Lacks}
use tiny_http.Httpd.Types.{Sock, sock, send, Host}
use tiny_http.Httpd.Line.{discard}
use tiny_http.Httpd.Line.Headers.{AllHeaders, header_block, discard_headers, discard-ne-timeout}
use tiny_http.Httpd.Replies.{headers}
use tiny_http.Httpd.File.{buf_a, send_file, server_file}
use tiny_http.Httpd.File.Send.{IsComplete, cat_lines, cat_total}

module _ (host : Host) (path : Bytes) (ls : List Bytes) (rest output : Bytes) (is_open : Bool) where
  server_file-send_file :
      AllHeaders 1024 ls
      → server_file host (sock (header_block ls rest) output is_open) path
        ≡ send_file (sock rest output is_open) (host.fopen path)
  unfolding server_file str_eq
  server_file-send_file a =
      rw (discard_headers ls rest 1 buf_a a (omega arith) (omega arith) refl) refl

  -- The reply to a file that opens: the 200 header lines and the file's lines that have their
  -- newline.
  pub server_file_lines :
      (full tail : Bytes)
      → AllHeaders 1024 ls
      → host.fopen path ≡ some (full ++ tail)
      → IsComplete full
      → Lacks 0 full
      → Lacks b'\n' tail
      → length tail < 1023
      → server_file host (sock (header_block ls rest) output is_open) path
        ≡ done (send (headers (sock rest output is_open)) full)
  unfolding send_file
  server_file_lines full tail a op c z n k =
      server_file-send_file a
      ∙ rw op (cat_lines (headers (sock rest output is_open)) full tail c z n k)

  -- A file that does not open makes `fclose` get the null pointer.
  pub server_file_missing :
      AllHeaders 1024 ls
      → host.fopen path ≡ none
      → server_file host (sock (header_block ls rest) output is_open) path ≡ fault
  unfolding send_file
  server_file_missing a op = server_file-send_file a ∙ rw op refl

send_file-ne-timeout : (s : Sock) (o : Option Bytes) → send_file s o ≢ timeout
unfolding send_file
send_file-ne-timeout s none = ground arith
send_file-ne-timeout s (some file) = let (out, e) = cat_total (headers s) file in rw e (λ f. cc)

pub server_file-ne-timeout :
    (host : Host) (s : Sock) (path : Bytes) → server_file host s path ≢ timeout
unfolding server_file
server_file-ne-timeout host s path =
    >>=-ne-timeout (discard (length s.input + 2) 1 buf_a 1024 s.input) _
      (discard-ne-timeout (length s.input + 2) 1 buf_a 1024 s.input (omega arith) (omega arith)
        (omega arith))
      λ rest _. send_file-ne-timeout (record s { input = rest }) (host.fopen path)

-- ===== src/HttpConn/Reply.antt =====
-- `add_response`, what calls it, and `process_write` of version_03/http/http_conn.cpp.
pub mod Fits
use tiny_http.Prelude.{
  ℕ, zero, suc, ◌+◌, ◌-◌, ◌*◌, ◌/◌, ◌%◌, ◌^◌, ◌<◌, ◌≤◌, ◌≡◌, ◌≢◌, ◌↔◌, ◌⊎◌, inl, inr, refl, sym, ap,
  ◌∙◌, subst, Bool, true, false, List, [], ◌∷◌, ◌++◌, append_assoc, append-nil, Bytes, length,
  length-append, take, drop, length-drop, Run, Option, some, none, replicate, done, fault, timeout,
  ◌>>=◌, >>=-eq-done, >>=-ne-timeout, arith, Bool-cases, leb, ltb, lt→ltb, not, ◌&&◌, ◌||◌, ◌==◌,
  if◌then◌else◌, codes, String,
}
use tiny_http.Prelude.Int.{pos}
use tiny_http.Libc.{print_int}
use tiny_http.HttpConn.Types.{
  HttpConn, HttpCode, internal_error, bad_request, forbidden_request, file_request, Iovec,
  write_buffer_size,
}

abbrev pub error_404_title : Bytes
error_404_title = codes "Not Found"

abbrev pub error_403_title : Bytes
error_403_title = codes "Forbidden"

abbrev pub error_500_title : Bytes
error_500_title = codes "Internal Error"

abbrev pub error_404_form : Bytes
error_404_form = codes "The requested file was not found on this server.\n"

abbrev pub error_403_form : Bytes
error_403_form = codes "You do not have permission to get file form this server.\n"

abbrev pub error_500_form : Bytes
error_500_form = codes "There was an unusual problem serving the request file.\n"

-- `text` is what the format and its arguments print. What does not fit is not counted in
-- `m_write_idx`.
unfoldable pub add_response : HttpConn → Bytes → Bool × HttpConn
add_response c text =
    let idx = length c.write_buf in
    if leb write_buffer_size idx
    then (false, c)
    else if leb (write_buffer_size - 1) (length text + idx)
    then (false, c)
    else (true, record c { write_buf = c.write_buf ++ text })

unfoldable pub add_status_line : HttpConn → ℕ → Bytes → HttpConn
add_status_line c status title =
    (add_response c
      (codes "HTTP/1.1 " ++ (print_int (pos status) ++ (b' ' ∷ (title ++ codes "\r\n"))))).1

unfoldable pub add_content_length : HttpConn → ℕ → HttpConn
add_content_length c n =
    (add_response c (codes "Content-Length:" ++ (print_int (pos n) ++ codes "\r\n"))).1

unfoldable pub add_linger : HttpConn → HttpConn
add_linger c =
    (add_response c
      (if c.linger then codes "Connection:keep-alive\r\n" else codes "Connection:close\r\n")).1

unfoldable pub add_blank_line : HttpConn → HttpConn
add_blank_line c = (add_response c (codes "\r\n")).1

unfoldable pub add_headers : HttpConn → ℕ → HttpConn
unfolding add_content_length add_linger add_blank_line
add_headers c n = add_blank_line (add_linger (add_content_length c n))

unfoldable pub add_content : HttpConn → Bytes → Bool × HttpConn
add_content c content = add_response c content

-- The one buffer of a reply without a file.
unfoldable pub one_buffer : HttpConn → HttpConn
one_buffer c =
    let n = length c.write_buf in
    record c { iv0 = record { base = 0; len = n }; iv_count = 1; bytes_to_send = n }

-- The header and the file of `size` bytes. The sum is stored in an `int`: its 32 low bits are kept.
unfoldable pub two_buffers : HttpConn → ℕ → HttpConn
two_buffers c size =
    let n = length c.write_buf in
    record c {
      iv0 = record { base = 0; len = n };
      iv1 = record { base = 0; len = size };
      iv_count = 2;
      bytes_to_send = (n + size) % 2 ^ 32;
    }

unfoldable pub error_reply : HttpConn → ℕ → Bytes → Bytes → Bool × HttpConn
unfolding add_status_line add_headers add_content one_buffer
error_reply c status title form =
    let (sent, c') =
      add_content (add_headers (add_status_line c status title) (length form)) form in
    if sent then (true, one_buffer c') else (false, c')

abbrev pub file_size : Option Bytes → ℕ
file_size none = 0
file_size (some content) = length content

abbrev ok_string : Bytes
ok_string = codes "<html><body></body></html>"

-- `add_headers` takes an `int`, so that `size` is taken to be below 2^31; the sum in `two_buffers`
-- need not be. An empty file falls through to the default, which returns false.
unfoldable pub sized_reply : HttpConn → ℕ → Bool × HttpConn
unfolding add_status_line add_headers add_content two_buffers
sized_reply c size =
    let started = add_status_line c 200 (codes "OK") in
    if size == 0
    then (false, (add_content (add_headers started (length ok_string)) ok_string).1)
    else (true, two_buffers (add_headers started size) size)

unfoldable pub file_reply : HttpConn → Bool × HttpConn
unfolding sized_reply
file_reply c = sized_reply c (file_size c.file)

unfoldable pub process_write : HttpConn → HttpCode → Bool × HttpConn
unfolding error_reply file_reply
process_write c internal_error = error_reply c 500 error_500_title error_500_form
process_write c bad_request = error_reply c 404 error_404_title error_404_form
process_write c forbidden_request = error_reply c 403 error_403_title error_403_form
process_write c file_request = file_reply c
process_write c other = (false, c)

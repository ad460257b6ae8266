-- ===== src/HttpConn/Reply/Fits.antt =====
-- The replies in full: each fits the write buffer.
use tiny_http.Prelude.{
  ℕ, ◌+◌, ◌<◌, ◌≤◌, ◌≡◌, refl, ap, ◌∙◌, subst, Bool, true, false, [], ◌∷◌, ◌++◌, Bytes, length,
  length-append, Option, some, none, arith, leb, ◌==◌, if◌then◌else◌, codes,
}
use tiny_http.Prelude.Int.{pos}
use tiny_http.Libc.{print_int, int_max}
use tiny_http.Libc.Numbers.Decimal.{length-print_int}
use tiny_http.HttpConn.Types.{
  HttpConn, HttpCode, internal_error, bad_request, forbidden_request, file_request, no_request,
  get_request, no_resource, closed_connection,
}
use tiny_http.HttpConn.Reply.{
  add_response, add_status_line, add_content_length, add_linger, add_blank_line, add_headers,
  add_content, one_buffer, two_buffers, error_reply, file_reply, sized_reply, file_size,
  process_write, error_404_title, error_404_form, error_403_title, error_403_form, error_500_title,
  error_500_form,
}

abbrev appended : HttpConn → Bytes → HttpConn
appended c text = record c { write_buf = c.write_buf ++ text }

add_response_fits :
    (c : HttpConn) (text : Bytes)
    → length text + length c.write_buf < 1023
    → add_response c text ≡ (true, appended c text)
unfolding add_response
add_response_fits c text h =
    let room : leb 1024 (length c.write_buf) ≡ false = ground arith in
    let fits : leb 1023 (length text + length c.write_buf) ≡ false = ground arith in
    rw (room, fits) refl

response_fits :
    (c : HttpConn) (text : Bytes)
    → length text + length c.write_buf < 1023
    → (add_response c text).1 ≡ appended c text
response_fits c text h = ap (λ (r : Bool × HttpConn). r.1) (add_response_fits c text h)

abbrev pub status_text : ℕ → Bytes → Bytes
status_text status title =
    codes "HTTP/1.1 " ++ (print_int (pos status) ++ (b' ' ∷ (title ++ codes "\r\n")))

abbrev pub length_text : ℕ → Bytes
length_text n = codes "Content-Length:" ++ (print_int (pos n) ++ codes "\r\n")

abbrev pub linger_text : Bool → Bytes
linger_text linger =
    if linger then codes "Connection:keep-alive\r\n" else codes "Connection:close\r\n"

-- The status line and the headers for a body of `n` bytes.
abbrev pub header_text : ℕ → Bytes → ℕ → Bool → Bytes
header_text status title n linger =
    ((status_text status title ++ length_text n) ++ linger_text linger) ++ codes "\r\n"

length-status_text :
    (status : ℕ) (title : Bytes)
    → status ≤ int_max
    → length (status_text status title) ≤ 22 + length title
length-status_text status title h = omega (
  arith,
  length-print_int status h,
  length-append (print_int (pos status)) (b' ' ∷ (title ++ codes "\r\n")),
  length-append title (codes "\r\n"),
)

length-length_text : (n : ℕ) → n ≤ int_max → length (length_text n) ≤ 27
length-length_text n h =
    omega (arith, length-print_int n h, length-append (print_int (pos n)) (codes "\r\n"))

length-linger_text : (linger : Bool) → length (linger_text linger) ≤ 23
length-linger_text true = omega arith
length-linger_text false = omega arith

module _ (c : HttpConn) (status : ℕ) (title : Bytes) (n : ℕ) where
  abbrev lined : HttpConn
  lined = appended c (status_text status title)

  abbrev sized : HttpConn
  sized = appended lined (length_text n)

  abbrev kept : HttpConn
  kept = appended sized (linger_text c.linger)

  header_fits :
      c.write_buf ≡ []
      → status ≤ int_max
      → n ≤ int_max
      → length title ≤ 100
      → (add_headers (add_status_line c status title) n ≡ appended kept (codes "\r\n"))
        × (length kept.write_buf ≤ 172)
  unfolding add_headers add_status_line
  header_fits e h k t =
      let s1 = length-status_text status title h in
      let s2 = length-length_text n k in
      let s3 = length-linger_text c.linger in
      let zero_len : length c.write_buf ≡ 0 = ap (λ (z : Bytes). length z) e in
      let l1 = length-append c.write_buf (status_text status title) in
      let l2 = length-append lined.write_buf (length_text n) in
      let l3 = length-append sized.write_buf (linger_text c.linger) in
      let e1 = response_fits c (status_text status title) (omega arith) in
      let e2 = response_fits lined (length_text n) (omega arith) in
      let e3 = response_fits sized (linger_text c.linger) (omega arith) in
      let e4 = response_fits kept (codes "\r\n") (omega arith) in
      (
        ap (λ (z : HttpConn). add_blank_line (add_linger (add_content_length z n))) e1
            ∙ ap (λ (z : HttpConn). add_blank_line (add_linger z)) e2
            ∙ ap add_blank_line e3
            ∙ e4,
        omega arith,
      )

-- The replies without a file.
abbrev pub error_text : HttpCode → Option (ℕ × Bytes × Bytes)
error_text internal_error =
    some (
      500,
      codes "Internal Error",
      codes "There was an unusual problem serving the request file.\n",
    )
error_text bad_request =
    some (404, codes "Not Found", codes "The requested file was not found on this server.\n")
error_text forbidden_request =
    some
      (403, codes "Forbidden", codes "You do not have permission to get file form this server.\n")
error_text _ = none

header_lem :
    (c : HttpConn) (status : ℕ) (title : Bytes) (n : ℕ)
    → c.write_buf ≡ []
    → status ≤ int_max
    → n ≤ int_max
    → length title ≤ 100
    → (add_headers (add_status_line c status title) n
        ≡ record c { write_buf = header_text status title n c.linger })
      × (length (header_text status title n c.linger) ≤ 174)
header_lem c status title n e h k t =
    let (p, l) = header_fits c status title n e h k t in
    let x = status_text status title in
    let y = length_text n in
    let z = linger_text c.linger in
    let same : (((c.write_buf ++ x) ++ y) ++ z) ++ codes "\r\n"
        ≡ header_text status title n c.linger =
      ap (λ (b : Bytes). (((b ++ x) ++ y) ++ z) ++ codes "\r\n") e in
    (
      p ∙ ap (λ (b : Bytes). record c { write_buf = b }) same,
      omega (
        arith,
        l,
        ap (λ (b : Bytes). length b) same,
        length-append (((c.write_buf ++ x) ++ y) ++ z) (codes "\r\n"),
      ),
    )

error_reply_lem :
    (c : HttpConn) (status : ℕ) (title form : Bytes)
    → c.write_buf ≡ []
    → status ≤ int_max
    → length form ≤ 500
    → length title ≤ 100
    → error_reply c status title form ≡ (
      true,
      one_buffer (record c { write_buf = header_text status title (length form) c.linger ++ form }),
    )
unfolding error_reply add_content
error_reply_lem c status title form e h k t =
    let (p, l) = header_lem c status title (length form) e h (omega arith) t in
    let headed : HttpConn = record c {
      write_buf = header_text status title (length form) c.linger;
    } in
    rw (p, add_response_fits headed form (omega (arith, l))) refl

triple : {x y : ℕ × Bytes × Bytes} → some x ≡ some y → x ≡ y
triple e = cc

matches :
    (c : HttpConn) {x y : ℕ × Bytes × Bytes} {r : Bool × HttpConn}
    → x ≡ y
    → r ≡ (
      true,
      one_buffer (record c { write_buf = header_text x.0 x.1 (length x.2) c.linger ++ x.2 }),
    )
    → r ≡ (
      true,
      one_buffer (record c { write_buf = header_text y.0 y.1 (length y.2) c.linger ++ y.2 }),
    )
matches c {r = r} e p =
    subst
      (λ (x : ℕ × Bytes × Bytes). r ≡ (
        true,
        one_buffer (record c { write_buf = header_text x.0 x.1 (length x.2) c.linger ++ x.2 }),
      ))
      e p

-- From an empty write buffer, each reply without a file fits the buffer: it is the status line, the
-- headers with the length of the form, and the form, in one buffer.
pub process_write-error :
    (c : HttpConn) (code : HttpCode) (status : ℕ) (title form : Bytes)
    → c.write_buf ≡ []
    → error_text code ≡ some (status, title, form)
    → process_write c code ≡ (
      true,
      one_buffer (record c { write_buf = header_text status title (length form) c.linger ++ form }),
    )
unfolding process_write
process_write-error c internal_error status title form e q = matches c (triple q) (
    error_reply_lem c 500 error_500_title error_500_form e (omega arith) (omega arith)
      (omega arith))
process_write-error c bad_request status title form e q = matches c (triple q) (
    error_reply_lem c 404 error_404_title error_404_form e (omega arith) (omega arith)
      (omega arith))
process_write-error c forbidden_request status title form e q = matches c (triple q) (
    error_reply_lem c 403 error_403_title error_403_form e (omega arith) (omega arith)
      (omega arith))
process_write-error c no_request status title form e q = cc
process_write-error c get_request status title form e q = cc
process_write-error c no_resource status title form e q = cc
process_write-error c file_request status title form e q = cc
process_write-error c closed_connection status title form e q = cc

-- A reply with a file that is not empty: the status line and the headers with the file's length, and the file, in two buffers.
pub process_write-file :
    (c : HttpConn) (f : Bytes)
    → c.write_buf ≡ []
    → c.file ≡ some f
    → 0 < length f
    → length f ≤ int_max
    → process_write c file_request ≡ (
      true,
      two_buffers
          (record c { write_buf = header_text 200 (codes "OK") (length f) c.linger })
          (length f),
    )
unfolding process_write file_reply sized_reply
process_write-file c f e ef h k =
    let some_size : (length f == 0) ≡ false = ground arith in
    let (p, _) = header_lem c 200 (codes "OK") (length f) e (omega arith) k (omega arith) in
    ap (λ z. sized_reply c (file_size z)) ef ∙ rw (some_size, p) refl

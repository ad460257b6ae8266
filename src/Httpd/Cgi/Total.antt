-- ===== src/Httpd/Cgi/Total.antt =====
-- `execute_cgi` ends: the bounds on the rounds of its loops are enough.
use tiny_http.Prelude.{
  ℕ, zero, suc, ◌+◌, ◌<◌, ◌≤◌, ◌≡◌, ◌≢◌, refl, List, if◌then◌else◌, codes, inl, inr, [], ◌∷◌, Bytes,
  length, drop, done, timeout, ◌>>=◌, >>=-eq-done, >>=-ne-timeout, arith, Bool-cases,
}
use tiny_http.Prelude.Int.{ℤ, negsuc, to_nat}
use tiny_http.Libc.{Buf, store, str_eq, atoi}
use tiny_http.Libc.Laws.{str_eq-ne-timeout, store-ne-timeout, length-store}
use tiny_http.Libc.Numbers.Decimal.{atoi-ne-timeout}
use tiny_http.Httpd.Types.{Sock, send, ScriptRun, finishes, hangs, stops_reading, Host, Junk}
use tiny_http.Httpd.Line.{Got, get_line, discard}
use tiny_http.Httpd.Line.Safety.{get_line-done, get_line-ne-timeout}
use tiny_http.Httpd.Line.Headers.{discard-ne-timeout}
use tiny_http.Httpd.File.{buf_a}
use tiny_http.Httpd.RequestLine.{Request}
use tiny_http.Httpd.Cgi.{
  scan_header, read_length, read_header, environment, copy_body, read_output, run_script,
  execute_cgi,
}
use tiny_http.Httpd.Cgi.Length.{field_name}

scan_header-ne-timeout : (buf : Buf) (n : ℤ) → scan_header buf n ≢ timeout
unfolding scan_header
scan_header-ne-timeout buf n = >>=-ne-timeout (store buf 15 0) _ (store-ne-timeout buf 15 0) λ b _.
    >>=-ne-timeout (str_eq field_name b) _ (str_eq-ne-timeout field_name b)
      λ found _. ground (arith, atoi-ne-timeout (drop 16 b))

length-scan_header :
    (buf : Buf) (n : ℤ) {b : Buf} {m : ℤ} → scan_header buf n ≡ done (b, m) → length b ≡ length buf
unfolding scan_header
length-scan_header buf n {b} {m} e =
    let (b', eb, f) = >>=-eq-done (store buf 15 0) _ e in
    let (found, ef, g) = >>=-eq-done (str_eq field_name b') _ f in
    elim (Bool-cases found) [
      | inl has ↦
          let (k, ek, h) = >>=-eq-done (atoi (drop 16 b')) _ (rw has at g) in
          ground (arith, length-store buf 15 0 eb)
      | inr lacks ↦ let h = rw lacks at g in ground (arith, length-store buf 15 0 eb)
    ]

-- one round, with what is known of the rounds behind it
round-ne-timeout :
    (fuel : ℕ) (buf : Buf) (n : ℤ) (input : Bytes)
    → 1024 ≤ length buf
    → ((g : Got) (m : ℤ)
        → length g.rest < length input
        → 1024 ≤ length g.buf
        → read_length fuel g.count g.buf m g.rest ≢ timeout)
    → (scan_header buf n >>= λ p.
        get_line input p.0 1024 >>= λ g. read_length fuel g.count g.buf p.1 g.rest)
      ≢ timeout
round-ne-timeout fuel buf n input k rec =
    >>=-ne-timeout (scan_header buf n) _ (scan_header-ne-timeout buf n) λ p e.
      let len = length-scan_header buf n {b = p.0} {m = p.1} e in
      >>=-ne-timeout (get_line input p.0 1024) _
        (get_line-ne-timeout input p.0 1024 (omega arith) (omega (arith, len)))
        λ g got.
          let line = get_line-done input p.0 1024 (omega arith) (omega (arith, len)) got in
          rec g p.1 line.consumes (omega (arith, len, line.same_length))

read_length-ne-timeout :
    (fuel numchars : ℕ) (buf : Buf) (n : ℤ) (input : Bytes)
    → length input < fuel
    → 1024 ≤ length buf
    → read_length fuel numchars buf n input ≢ timeout
unfolding read_length
read_length-ne-timeout zero numchars buf n input f k = absurd (omega arith)
read_length-ne-timeout (suc fuel) numchars buf n input f k = ground (
  arith,
  str_eq-ne-timeout (b'\n' ∷ []) buf,
  round-ne-timeout fuel buf n input k
      λ (g : Got) (m : ℤ) (l : length g.rest < length input) (h : 1024 ≤ length g.buf).
        read_length-ne-timeout fuel g.count g.buf m g.rest (omega arith) h,
)

read_header-ne-timeout : (r : Request) (input : Bytes) → read_header r input ≢ timeout
unfolding read_header
read_header-ne-timeout r input = ground (arith, dropped, searched)
  where
    dropped :
        ◌>>=◌ {B = ℤ × Bytes}
          (discard (length input + 2) 1 buf_a 1024 input)
          (λ rest. done (negsuc 0, rest))
        ≢ timeout
    dropped =
        >>=-ne-timeout (discard (length input + 2) 1 buf_a 1024 input) _
          (discard-ne-timeout (length input + 2) 1 buf_a 1024 input (omega arith) (omega arith)
            (omega arith))
          λ rest _ e. cc

    searched :
        (get_line input buf_a 1024 >>= λ g.
        read_length (length input + 2) g.count g.buf (negsuc 0) g.rest)
        ≢ timeout
    searched =
        >>=-ne-timeout (get_line input buf_a 1024) _
          (get_line-ne-timeout input buf_a 1024 (omega arith) (omega arith))
          λ g got.
            let line = get_line-done input buf_a 1024 (omega arith) (omega arith) got in
            read_length-ne-timeout (length input + 2) g.count g.buf (negsuc 0) g.rest
              (omega (arith, line.consumes)) (omega (arith, line.same_length))

environment-ne-timeout : (r : Request) (n : ℤ) → environment r n ≢ timeout
unfolding environment
environment-ne-timeout r n = ground arith

-- No script waits for the end of its input, writes for ever or fills its pipe.
abbrev pub ScriptsEnd : Host → Type 0
ScriptsEnd host =
    (path : Bytes) (env : List Bytes) (body : Bytes) → host.script path env body ≢ hangs

read_output-ne-timeout : (s : Sock) (x : ScriptRun) → x ≢ hangs → read_output s x ≢ timeout
unfolding read_output
read_output-ne-timeout s (finishes output) h e = cc
read_output-ne-timeout s hangs h e = h refl
read_output-ne-timeout s stops_reading h e = cc

run_script-ne-timeout :
    (host : Host) (junk : Junk) (s : Sock) (r : Request) (n : ℤ)
    → ScriptsEnd host
    → run_script host junk s r n ≢ timeout
unfolding run_script
run_script-ne-timeout host junk s r n ends =
    >>=-ne-timeout (environment r n) _ (environment-ne-timeout r n) λ env _.
      let body = copy_body (if r.is_get then 0 else to_nat n) junk.c s.input in
      read_output-ne-timeout
        (record (send (send s (codes "HTTP/1.1 200 OK\r\n")) (codes "HTTP/1.1 200 OK\r\n")) {
          input = body.1;
        })
        (host.script r.path env body.0) (ends r.path env body.0)

pub execute_cgi-ne-timeout :
    (host : Host) (junk : Junk) (s : Sock) (r : Request)
    → ScriptsEnd host
    → execute_cgi host junk s r ≢ timeout
unfolding execute_cgi
execute_cgi-ne-timeout host junk s r ends =
    >>=-ne-timeout (read_header r s.input) _ (read_header-ne-timeout r s.input)
      λ p _. ground (arith, run_script-ne-timeout host junk (record s { input = p.1 }) r p.0 ends)

-- ===== src/Httpd/Cgi/Length.antt =====
-- How `execute_cgi` finds the content length among a POST request's header lines.
use tiny_http.Prelude.{
  ℕ, zero, suc, ◌+◌, ◌<◌, ◌≤◌, ◌≡◌, inl, inr, refl, ap, ◌∙◌, Bool, true, false, List, [], ◌∷◌, ◌++◌,
  Bytes, length, drop, done, >>=-eq-done, arith, Bool-cases, ◌==◌, if◌then◌else◌, codes,
}
use tiny_http.Prelude.Int.{ℤ, pos, negsuc}
use tiny_http.Libc.{Buf, store, str_eq, print_int, int_max}
use tiny_http.Libc.Laws.{Lacks, store_in}
use tiny_http.Libc.Numbers.Decimal.{atoi-print_int}
use tiny_http.Httpd.Line.{Got, get_line}
use tiny_http.Httpd.Line.Shape.{get_line-crlf}
use tiny_http.Httpd.File.{buf_a}
use tiny_http.Httpd.RequestLine.{Request}
use tiny_http.Httpd.Line.Headers.{
  discard-header_block, length-header_block, IsHeader, AllHeaders, header_block, line_buf,
  length-line_buf, str_eq-line_buf,
}
use tiny_http.Httpd.Cgi.{scan_header, read_length, read_header}

abbrev pub field_name : Bytes
field_name = codes "Content-Length:"

-- `s` begins with `p`
abbrev pub starts_with : Bytes → Bytes → Bool
starts_with [] s = true
starts_with (c ∷ p) [] = false
starts_with (c ∷ p) (b ∷ s) = if c == b then starts_with p s else false

-- the comparison behind `buf[length p] = '\0'`, on a line that does not begin with `p`
str_eq-other :
    (p line tail : Bytes) {b : Buf}
    → Lacks b'\n' p
    → starts_with p line ≡ false
    → store (line ++ b'\n' ∷ tail) (length p) 0 ≡ done b
    → str_eq p b ≡ done false
unfolding store str_eq
str_eq-other [] line tail l s e = cc
str_eq-other (c ∷ p) [] tail l s e =
    let (r, f, g) = >>=-eq-done (store tail (length p) 0) (λ r. done (b'\n' ∷ r)) e in ground arith
str_eq-other (c ∷ p) (x ∷ line) tail l s e =
    let (r, f, g) = >>=-eq-done (store (line ++ b'\n' ∷ tail) (length p) 0) (λ r. done (x ∷ r)) e in
    elim (Bool-cases (c == x)) [
      | inl same ↦ ground (arith, str_eq-other p line tail l.1 (rw same at s) f)
      | inr other ↦ ground arith
    ]

store-field :
    (p : Bytes) (x : ℕ) (more : Bytes) → store (p ++ x ∷ more) (length p) 0 ≡ done (p ++ 0 ∷ more)
unfolding store
store-field [] x more = refl
store-field (c ∷ p) x more = rw (store-field p x more) refl

str_eq-field : (p more : Bytes) → str_eq p (p ++ 0 ∷ more) ≡ done true
unfolding str_eq
str_eq-field [] more = refl
str_eq-field (c ∷ p) more = ground (arith, str_eq-field p more)

scan_header-other :
    (line : Bytes) (buf : Buf) (n : ℤ)
    → starts_with field_name line ≡ false
    → 1024 ≤ length buf
    → length line + 2 < 1024
    → (b : Buf) × (scan_header (line_buf line buf) n ≡ done (b, n)) × (length b ≡ length buf)
unfolding scan_header
scan_header-other line buf n s h k =
    let l = length-line_buf line buf (omega arith) in
    let (b, e, f) = store_in (line_buf line buf) 15 0 (omega (arith, l)) in
    (
      b,
      rw (e, str_eq-other field_name line (0 ∷ drop (length line + 2) buf) (omega arith) s e) refl,
      f ∙ l,
    )

-- the line that declares `n` bytes
abbrev pub length_line : ℕ → Bytes
length_line n = field_name ++ b' ' ∷ print_int (pos n)

scan_header-length_line :
    (k : ℕ) (buf : Buf) (n : ℤ)
    → 1024 ≤ length buf
    → length (length_line k) + 2 < 1024
    → k ≤ int_max
    → (b : Buf) × (scan_header (line_buf (length_line k) buf) n ≡ done (b, pos k))
      × (length b ≡ length buf)
unfolding scan_header
scan_header-length_line k buf n h l m =
    let after = print_int (pos k) ++ b'\n' ∷ 0 ∷ drop (length (length_line k) + 2) buf in
    let len = length-line_buf (length_line k) buf (omega arith) in
    (
      field_name ++ 0 ∷ after,
      rw
          (
            store-field field_name b' ' after,
            str_eq-field field_name after,
            atoi-print_int k b'\n' (0 ∷ drop (length (length_line k) + 2) buf) m refl,
          )
          refl,
      len,
    )

-- What the header lines make of the content length `n`: the last line that declares one counts.
pub data Scan (m : ℤ) : ℤ → List Bytes → Type 0 where
  no_more : Scan m m []
  other :
      {n : ℤ} {l : Bytes} {ls : List Bytes}
      → starts_with field_name l ≡ false
      → Scan m n ls
      → Scan m n (l ∷ ls)
  declared :
      {n : ℤ} {ls : List Bytes} (k : ℕ)
      → k ≤ int_max
      → Scan m (pos k) ls
      → Scan m n (length_line k ∷ ls)

-- What one header line makes of it.
abbrev ScanLine : ℤ → Bytes → ℤ → Type 0
ScanLine n l n' =
    (buf : Buf)
    → 1024 ≤ length buf
    → (b : Buf) × (scan_header (line_buf l buf) n ≡ done (b, n')) × (length b ≡ length buf)

read_length-step :
    (fuel numchars : ℕ) (buf : Buf) (n : ℤ) (input : Bytes) (b : Buf) (n' : ℤ) (g : Got)
    → 0 < numchars
    → str_eq (b'\n' ∷ []) buf ≡ done false
    → scan_header buf n ≡ done (b, n')
    → get_line input b 1024 ≡ done g
    → read_length (suc fuel) numchars buf n input ≡ read_length fuel g.count g.buf n' g.rest
unfolding read_length
read_length-step fuel numchars buf n input b n' g p blank scanned got =
    ground (arith, blank, scanned, got)

read_length_blank :
    (fuel : ℕ) (buf : Buf) (n : ℤ) (input : Bytes)
    → 0 < fuel
    → read_length fuel (0 + 1) (line_buf [] buf) n input ≡ done (n, input)
unfolding read_length str_eq
read_length_blank zero buf n input h = absurd (omega arith)
read_length_blank (suc fuel) buf n input h = refl

Scan-cons :
    {m n : ℤ} {l : Bytes} {ls : List Bytes}
    → Scan m n (l ∷ ls)
    → IsHeader 1024 l
    → (n' : ℤ) × ScanLine n l n' × Scan m n' ls
Scan-cons (other {n} {l} {ls} e s) a = (n, (λ buf h. scan_header-other l buf n e h a.short), s)
Scan-cons (declared {n} {ls} k h s) a =
    (pos k, (λ buf b. scan_header-length_line k buf n b a.short h), s)

Scan-nil : {m n : ℤ} → Scan m n [] → n ≡ m
Scan-nil no_more = refl

-- The rounds from the header line `l` on, the next lines being `ls`.
read_length-Scan :
    (fuel : ℕ) (l : Bytes) (ls : List Bytes) (rest : Bytes) (buf : Buf) (n : ℤ) {m : ℤ}
    → Scan m n (l ∷ ls)
    → AllHeaders 1024 (l ∷ ls)
    → 1024 ≤ length buf
    → length ls + 1 < fuel
    → read_length fuel (length l + 1) (line_buf l buf) n (header_block ls rest) ≡ done (m, rest)
read_length-Scan zero l ls rest buf n s a h f = absurd (omega arith)
read_length-Scan (suc zero) l ls rest buf n s a h f = absurd (omega arith)
read_length-Scan (suc (suc fuel)) l [] rest buf n s a h f =
    let (n', scan, s') = Scan-cons s a.0 in
    let (b, e, len) = scan buf h in
    read_length-step (suc fuel) (length l + 1) (line_buf l buf) n (header_block [] rest) b n' _
      (omega arith) (str_eq-line_buf l buf a.0.non_empty a.0.one_line) e
      (get_line-crlf [] rest b 1024 tt (omega arith) (omega (arith, len)))
    ∙ read_length_blank (suc fuel) b n' rest (omega arith)
    ∙ ap (λ (z : ℤ). done (z, rest)) (Scan-nil s')
read_length-Scan (suc (suc fuel)) l (x ∷ ls) rest buf n s a h f =
    let (n', scan, s') = Scan-cons s a.0 in
    let (b, e, len) = scan buf h in
    read_length-step (suc fuel) (length l + 1) (line_buf l buf) n (header_block (x ∷ ls) rest) b n'
      _ (omega arith) (str_eq-line_buf l buf a.0.non_empty a.0.one_line) e
      (get_line-crlf x (header_block ls rest) b 1024 a.1.0.one_line a.1.0.short
        (omega (arith, len)))
    ∙ read_length-Scan (suc fuel) x ls rest b n' s' a.1 (omega (arith, len)) (omega arith)

-- A POST request's header lines give the content length that the last Content-Length line declares,
-- or -1 if there is none, and are consumed up to the empty line.
pub read_header-post :
    (r : Request) (ls : List Bytes) (rest : Bytes) {m : ℤ}
    → r.is_get ≡ false
    → AllHeaders 1024 ls
    → Scan m (negsuc 0) ls
    → read_header r (header_block ls rest) ≡ done (m, rest)
unfolding read_header
read_header-post r [] rest p a s =
    rw (p, get_line-crlf [] rest buf_a 1024 tt (omega arith) (omega arith))
      (read_length_blank (length (header_block [] rest) + 2) buf_a (negsuc 0) rest (omega arith)
        ∙ ap (λ (z : ℤ). done (z, rest)) (Scan-nil s))
read_header-post r (l ∷ ls) rest p a s =
    rw (p, get_line-crlf l (header_block ls rest) buf_a 1024 a.0.one_line a.0.short (omega arith))
      (read_length-Scan (length (header_block (l ∷ ls) rest) + 2) l ls rest buf_a (negsuc 0) s a
        (omega arith) (omega (arith, length-header_block (l ∷ ls) rest)))

-- A GET request's header is read and dropped.
pub read_header-get :
    (r : Request) (ls : List Bytes) (rest : Bytes)
    → r.is_get ≡ true
    → AllHeaders 1024 ls
    → read_header r (header_block ls rest) ≡ done (negsuc 0, rest)
unfolding read_header
read_header-get r ls rest p a =
    rw
      (
        p,
        discard-header_block ls rest (length (header_block ls rest) + 2) 1 1024 buf_a a
            (omega (arith, length-header_block ls rest)) (omega arith) (omega arith) (omega arith)
            (unfold str_eq in refl),
      )
      refl

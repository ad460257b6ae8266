-- ===== src/Httpd/Line/Headers.antt =====
-- The loop that reads the rest of a request's header and drops it.
use tiny_http.Prelude.{
  ℕ, zero, suc, ◌+◌, ◌<◌, ◌≤◌, ◌≡◌, ◌≢◌, inl, inr, refl, ◌∙◌, true, false, List, [], ◌∷◌, ◌++◌,
  Bytes, length, length-append, drop, length-drop, done, timeout, arith,
}
use tiny_http.Libc.{Buf, str_eq}
use tiny_http.Libc.Laws.{Lacks, str_eq-ne-timeout}
use tiny_http.Httpd.Line.{Got, get_line, discard}
use tiny_http.Httpd.Line.Shape.{get_line-crlf}
use tiny_http.Httpd.Line.Safety.{get_line-cases}

-- A header line without its ending: not empty, on one line, and short enough for the buffer.
pub record IsHeader (size : ℕ) (line : Bytes) : Type 0 where
  pub non_empty : line ≢ []
  pub one_line : Lacks b'\n' line
  pub short : length line + 2 < size

abbrev pub AllHeaders : ℕ → List Bytes → Type 0
AllHeaders size [] = Unit
AllHeaders size (l ∷ ls) = IsHeader size l × AllHeaders size ls

-- the lines, the empty line that ends them, and what follows
abbrev pub header_block : List Bytes → Bytes → Bytes
header_block [] rest = b'\r' ∷ b'\n' ∷ rest
header_block (l ∷ ls) rest = l ++ b'\r' ∷ b'\n' ∷ header_block ls rest

pub length-header_block :
    (ls : List Bytes) (rest : Bytes) → length ls + 2 ≤ length (header_block ls rest)
length-header_block [] rest = omega arith
length-header_block (l ∷ ls) rest =
    omega
      (arith, length-append l (b'\r' ∷ b'\n' ∷ header_block ls rest), length-header_block ls rest)

-- the buffer after a line that ended in "\r\n"
abbrev pub line_buf : Bytes → Buf → Buf
line_buf body buf = body ++ b'\n' ∷ 0 ∷ drop (length body + 2) buf

pub length-line_buf :
    (body : Bytes) (buf : Buf)
    → length body + 2 ≤ length buf
    → length (line_buf body buf) ≡ length buf
length-line_buf body buf h = omega (
  arith,
  length-append body (b'\n' ∷ 0 ∷ drop (length body + 2) buf),
  length-drop (length body + 2) buf,
)

pub str_eq-line_buf :
    (body : Bytes) (buf : Buf)
    → body ≢ []
    → Lacks b'\n' body
    → str_eq (b'\n' ∷ []) (line_buf body buf) ≡ done false
unfolding str_eq
str_eq-line_buf [] buf n l = absurd (n refl)
str_eq-line_buf (b ∷ body) buf n l = ground arith

discard-get_line :
    (fuel numchars size : ℕ) (buf : Buf) (input : Bytes) (g : Got)
    → 0 < numchars
    → str_eq (b'\n' ∷ []) buf ≡ done false
    → get_line input buf size ≡ done g
    → discard (suc fuel) numchars buf size input ≡ discard fuel g.count g.buf size g.rest
unfolding discard
discard-get_line fuel numchars size buf input g p e q = ground (arith, e, q)

discard_blank :
    (fuel numchars size : ℕ) (buf : Buf) (input : Bytes)
    → 0 < numchars
    → str_eq (b'\n' ∷ []) buf ≡ done true
    → discard (suc fuel) numchars buf size input ≡ done input
unfolding discard
discard_blank fuel numchars size buf input p e = ground (arith, e)

-- The loop over header lines drops a block of non-empty lines that fit, with the empty line behind
-- it, and leaves what follows unread.
pub discard-header_block :
    (lines : List Bytes) (rest : Bytes) (fuel numchars size : ℕ) (buf : Buf)
    → AllHeaders size lines
    → length lines + 1 < fuel
    → 0 < numchars
    → 2 < size
    → size ≤ length buf
    → str_eq (b'\n' ∷ []) buf ≡ done false
    → discard fuel numchars buf size (header_block lines rest) ≡ done rest
discard-header_block lines rest zero numchars size buf a f p s k e = absurd (omega arith)
discard-header_block lines rest (suc zero) numchars size buf a f p s k e = absurd (omega arith)
discard-header_block [] rest (suc (suc fuel)) numchars size buf a f p s k e =
    discard-get_line (suc fuel) numchars size buf (b'\r' ∷ b'\n' ∷ rest) _ p e
      (get_line-crlf [] rest buf size tt (omega arith) k)
    ∙ discard_blank fuel (0 + 1) size (line_buf [] buf) rest (omega arith) (unfold str_eq in refl)
discard-header_block (l ∷ ls) rest (suc (suc fuel)) numchars size buf (a, as') f p s k e =
    discard-get_line (suc fuel) numchars size buf (header_block (l ∷ ls) rest) _ p e
      (get_line-crlf l (header_block ls rest) buf size a.one_line a.short k)
    ∙ discard-header_block ls rest (suc fuel) (length l + 1) size (line_buf l buf) as' (omega arith)
        (omega arith) s (omega (arith, length-line_buf l buf (omega (arith, a.short))))
        (str_eq-line_buf l buf a.non_empty a.one_line)

-- The same with the bound on the rounds that the callers give.
pub discard_headers :
    (lines : List Bytes) (rest : Bytes) (numchars : ℕ) (buf : Buf)
    → AllHeaders 1024 lines
    → 0 < numchars
    → 1024 ≤ length buf
    → str_eq (b'\n' ∷ []) buf ≡ done false
    → discard (length (header_block lines rest) + 2) numchars buf 1024 (header_block lines rest)
      ≡ done rest
discard_headers lines rest numchars buf a p k e =
    discard-header_block lines rest (length (header_block lines rest) + 2) numchars 1024 buf a
      (omega (arith, length-header_block lines rest)) p (omega arith) k e

-- The loop over header lines ends within a round for each byte of the input and one more, whatever
-- the bytes are.
pub discard-ne-timeout :
    (fuel numchars : ℕ) (buf : Buf) (size : ℕ) (input : Bytes)
    → length input < fuel
    → 2 ≤ size
    → size ≤ length buf
    → discard fuel numchars buf size input ≢ timeout
unfolding discard
discard-ne-timeout zero numchars buf size input f s k = absurd (omega arith)
discard-ne-timeout (suc fuel) numchars buf size input f s k =
    elim (get_line-cases input buf size s k) [
      | inl bad ↦ ground (arith, str_eq-ne-timeout (b'\n' ∷ []) buf)
      | inr (g, e, p) ↦ ground (
        arith,
        str_eq-ne-timeout (b'\n' ∷ []) buf,
        discard-ne-timeout fuel g.count g.buf size g.rest (omega (arith, p.consumes)) s
            (omega (arith, p.same_length)),
      )
    ]

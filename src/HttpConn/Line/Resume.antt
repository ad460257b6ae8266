-- ===== src/HttpConn/Line/Resume.antt =====
-- Parsing a line that arrives in pieces.
use tiny_http.Prelude.{
  ℕ, zero, suc, ◌+◌, ◌-◌, ◌<◌, ◌≤◌, ◌≡◌, ◌≢◌, inl, inr, refl, sym, ap, ◌∙◌, subst, [], ◌∷◌, ◌++◌,
  Bytes, length, take, drop, length-take, some, done, ◌>>=◌, >>=-eq-done, arith, Bool-cases, leb,
  ◌||◌, ◌==◌, if◌then◌else◌,
}
use tiny_http.Libc.{Buf, load}
use tiny_http.HttpConn.Types.{HttpConn, line_open, read_buffer_size}
use tiny_http.HttpConn.Line.{Scanned, at_cr, at_lf, scan_line, parse_line, read_once, overwrite}

at_cr-open :
    (buf : Buf) (r i : ℕ) {s : Scanned}
    → at_cr buf r i ≡ done s
    → s.status ≡ line_open
    → (s.buf ≡ buf) × (s.checked ≡ i) × (i + 1 ≡ r)
unfolding at_cr
at_cr-open buf r i {s} e o = (ground arith, ground arith, ground arith)

at_lf-open : (buf : Buf) (i : ℕ) {s : Scanned} → at_lf buf i ≡ done s → s.status ≢ line_open
unfolding at_lf
at_lf-open buf i {s} e o = ground arith

abbrev AgreeBelow : ℕ → Buf → Buf → Type 0
AgreeBelow r a b = (k : ℕ) → k < r → load b k ≡ load a k

-- What a scan that finds no end of the line leaves, and what a scan of more bytes makes of it.
scan_line-resume :
    (n : ℕ) (a b : Buf) (r r' i : ℕ) {s : Scanned}
    → AgreeBelow r a b
    → i + n ≡ r
    → r ≤ r'
    → scan_line n a r i ≡ done s
    → s.status ≡ line_open
    → (s.buf ≡ a)
      × (s.checked ≤ r)
      × (scan_line (r' - i) b r' i ≡ scan_line (r' - s.checked) b r' s.checked)
unfolding scan_line
scan_line-resume zero a b r r' i {s} g h l e o = (ground arith, ground arith, ground arith)
scan_line-resume (suc n) a b r r' i {s} g h l e o =
    let (t, lt, e') = >>=-eq-done (load a i) _ e in
    elim (Bool-cases (t == b'\r')) [
      | inl cr ↦
          let (p, q, _) =
            at_cr-open a r i
              (subst
                (λ z.
                  (if z
                    then at_cr a r i
                    else if t == b'\n'
                    then at_lf a i
                    else scan_line n a r (i + 1))
                  ≡ done s)
                cr e')
              o in
          (p, omega arith, ap (λ z. scan_line (r' - z) b r' z) (sym q))
      | inr other ↦
          let e'' : (if t == b'\n' then at_lf a i else scan_line n a r (i + 1)) ≡ done s =
            rw other at e' in
          elim (Bool-cases (t == b'\n')) [
            | inl lf ↦ absurd (at_lf-open a i (rw lf at e'') o)
            | inr more ↦
                let (p, q, u) =
                  scan_line-resume n a b r r' (i + 1) g (omega arith) l (rw more at e'') o in
                let rounds : r' - i ≡ suc (r' - (i + 1)) = omega arith in
                (p, q, rw (rounds, g i (omega arith) ∙ lt, other, more) u)
          ]
    ]

load-append_lt : (x y : Buf) (k : ℕ) → k < length x → load (x ++ y) k ≡ load x k
unfolding load
load-append_lt [] y k h = absurd (omega arith)
load-append_lt (c ∷ x) y zero h = refl
load-append_lt (c ∷ x) y (suc k) h = load-append_lt x y k (omega arith)

load-take : (r : ℕ) (x : Buf) (k : ℕ) → k < r → load (take r x) k ≡ load x k
unfolding load
load-take zero x k h = absurd (omega arith)
load-take (suc r) [] k h = refl
load-take (suc r) (c ∷ x) zero h = refl
load-take (suc r) (c ∷ x) (suc k) h = load-take r x k (omega arith)

overwrite-AgreeBelow :
    (r : ℕ) (s : Bytes) (x : Buf) → r ≤ length x → AgreeBelow r x (overwrite r s x)
overwrite-AgreeBelow r s x h = λ k l.
    load-append_lt (take r x) (s ++ drop (r + length s) x) k (omega (arith, length-take r x h))
    ∙ load-take r x k l

read_once_lem :
    (c d : HttpConn) (waiting : Bytes)
    → read_once c (some waiting) ≡ some d
    → let got = take (read_buffer_size - c.read_idx) waiting in
      d ≡ record c {
        read_buf = overwrite c.read_idx got c.read_buf;
        read_idx = c.read_idx + length got;
      }
unfolding read_once
read_once_lem c d waiting e =
    let got = take (read_buffer_size - c.read_idx) waiting in
    elim (Bool-cases (leb read_buffer_size c.read_idx || length got == 0)) [
      | inl full ↦ let x = rw full at e in cc x
      | inr room ↦ let x = rw room at e in sym (cc x)
    ]

-- If parse_line finds no end of the line in what has arrived, then parsing again after more bytes
-- are received gives what parsing all these bytes at once gives.
pub parse_line_resume :
    (c c' more all : HttpConn) (waiting : Bytes)
    → c.checked_idx ≤ c.read_idx
    → c.read_idx ≤ length c.read_buf
    → parse_line c ≡ done (line_open, c')
    → read_once c' (some waiting) ≡ some more
    → read_once c (some waiting) ≡ some all
    → parse_line more ≡ parse_line all
unfolding parse_line
parse_line_resume c c' more all waiting i r e m a =
    let got = take (read_buffer_size - c.read_idx) waiting in
    let (s, scanned, e') =
      >>=-eq-done (scan_line (c.read_idx - c.checked_idx) c.read_buf c.read_idx c.checked_idx) _
        e in
    let state : record c { read_buf = s.buf; checked_idx = s.checked } ≡ c' = cc in
    let open_line : s.status ≡ line_open = cc in
    let (p, q, u) =
      scan_line-resume (c.read_idx - c.checked_idx) c.read_buf (overwrite c.read_idx got c.read_buf)
        c.read_idx (c.read_idx + length got) c.checked_idx
        (overwrite-AgreeBelow c.read_idx got c.read_buf r) (omega arith) (omega arith) scanned
        open_line in
    let m' : more ≡ record c {
      read_buf = overwrite c.read_idx got s.buf;
      read_idx = c.read_idx + length got;
      checked_idx = s.checked;
    } =
      read_once_lem (record c { read_buf = s.buf; checked_idx = s.checked }) more waiting
        (subst (λ z. read_once z (some waiting) ≡ some more) (sym state) m) in
    let m'' : more ≡ record c {
      read_buf = overwrite c.read_idx got c.read_buf;
      read_idx = c.read_idx + length got;
      checked_idx = s.checked;
    } =
      m'
      ∙ ap
          (λ (z : Buf). record c {
            read_buf = overwrite c.read_idx got z;
            read_idx = c.read_idx + length got;
            checked_idx = s.checked;
          })
          p in
    ap parse_line m''
    ∙ ap
        (λ m. m >>= λ (r : Scanned). done (
          r.status,
          record c {
            read_buf = r.buf;
            read_idx = c.read_idx + length got;
            checked_idx = r.checked;
          },
        ))
        (sym u)
    ∙ ap parse_line (sym (read_once_lem c all waiting a))

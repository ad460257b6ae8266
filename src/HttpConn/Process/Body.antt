-- ===== src/HttpConn/Process/Body.antt =====
-- The body of a request that arrives in pieces.
use tiny_http.Prelude.{
  ℕ, zero, suc, ◌+◌, ◌*◌, ◌-◌, ◌<◌, ◌≤◌, ◌≡◌, refl, ap, ◌∙◌, true, false, done, arith, leb, ltb,
  ◌==◌,
}
use tiny_http.Prelude.Int.{pos}
use tiny_http.Libc.{Buf, load, int_max}
use tiny_http.HttpConn.Types.{HttpConn, check_state_content, no_request, line_ok, line_open}
use tiny_http.HttpConn.Line.{scan_line, parse_line}
use tiny_http.HttpConn.Parse.{content_of, parse_content}
use tiny_http.HttpConn.Request.{Host, Users}
use tiny_http.HttpConn.Process.{
  continues, in_content, parse_in, after_content, round, process_loop, process_read,
}

-- The bytes from `lo` up to `hi` are there, and none of them ends a line.
abbrev pub IsPlain : Buf → ℕ → ℕ → Type 0
IsPlain b lo hi =
    (j : ℕ)
    → lo ≤ j
    → j < hi
    → (t : ℕ) × (load b j ≡ done t) × ((t == b'\r') ≡ false) × ((t == b'\n') ≡ false)

scan_line-IsPlain :
    (n : ℕ) (b : Buf) (i r : ℕ)
    → i + n ≡ r
    → IsPlain b i r
    → scan_line n b r i ≡ done (record { status = line_open; buf = b; checked = r })
unfolding scan_line
scan_line-IsPlain zero b i r e p =
    ap (λ z. done (record { status = line_open; buf = b; checked = z })) (omega arith)
scan_line-IsPlain (suc n) b i r e p =
    let (t, l, cr, lf) = p i (omega arith) (omega arith) in
    rw (l, cr, lf) (scan_line-IsPlain n b (i + 1) r (omega arith) (λ j h k. p j (omega arith) k))

parse_line-IsPlain :
    (c : HttpConn)
    → c.checked_idx ≤ c.read_idx
    → IsPlain c.read_buf c.checked_idx c.read_idx
    → parse_line c ≡ done (line_open, record c { checked_idx = c.read_idx })
unfolding parse_line
parse_line-IsPlain c h p =
    rw
      (scan_line-IsPlain (c.read_idx - c.checked_idx) c.read_buf c.checked_idx c.read_idx
        (omega arith) p)
      refl

module _ (c : HttpConn) (n : ℕ) where
  -- `parse_content` where the body is not complete
  parse_content-short :
      (text : ℕ)
      → c.content_length ≡ pos n
      → n + c.checked_idx ≤ int_max
      → c.read_idx < n + c.checked_idx
      → parse_content c text ≡ done (no_request, c)
  unfolding parse_content content_of
  parse_content-short text e m h =
      let bound : ltb int_max (n + c.checked_idx) ≡ false = ground arith in
      let short : leb (n + c.checked_idx) c.read_idx ≡ false = ground arith in
      ap (λ z. content_of z c text) e ∙ rw (bound, short) refl

round-short :
    (host : Host) (users : Users) (c : HttpConn) (n : ℕ)
    → c.check_state ≡ check_state_content
    → c.content_length ≡ pos n
    → n + c.checked_idx ≤ int_max
    → c.read_idx < n + c.checked_idx
    → round host users c ≡ done (continues line_open (record c { start_line = c.checked_idx }))
unfolding round parse_in after_content
round-short host users c n s e m h =
    let c' : HttpConn = record c { start_line = c.checked_idx } in
    ap (λ z. parse_in host users z c' c.start_line) s
    ∙ rw (parse_content-short c' n c.start_line e m h) refl

-- A body of which a part has not arrived is waited for, and all that has arrived counts as checked.
process_read-short :
    (host : Host) (users : Users) (c : HttpConn) (n : ℕ)
    → c.check_state ≡ check_state_content
    → c.content_length ≡ pos n
    → n + c.checked_idx ≤ int_max
    → c.checked_idx ≤ c.read_idx
    → c.read_idx < n + c.checked_idx
    → IsPlain c.read_buf c.checked_idx c.read_idx
    → process_read host users c
      ≡ done (no_request, record c { start_line = c.checked_idx; checked_idx = c.read_idx }, users)
unfolding process_read process_loop
process_read-short host users c n s e m l h p =
    let fuel : 2 * c.read_idx + 2 ≡ suc (suc (2 * c.read_idx)) = omega arith in
    let c' : HttpConn = record c { start_line = c.checked_idx } in
    let content : in_content c.check_state ≡ true = ap in_content s in
    ap (λ k. process_loop k host users line_ok c) fuel
    ∙ rw (content, round-short host users c n s e m h, parse_line-IsPlain c' l p, content) refl

-- The body of a request, without an end of a line, arrives in two parts that are not empty:
-- process_read asks for more after the first part, and it still does after the second, when the
-- body is complete.
pub process_read_split_body :
    (host : Host) (users : Users) (c : HttpConn) (b : Buf) (n k : ℕ)
    → c.check_state ≡ check_state_content
    → c.content_length ≡ pos n
    → c.read_idx ≡ c.checked_idx + k
    → 0 < k
    → k < n
    → n + c.read_idx ≤ int_max
    → IsPlain c.read_buf c.checked_idx c.read_idx
    → IsPlain b c.read_idx (c.checked_idx + n)
    → let first : HttpConn = record c { start_line = c.checked_idx; checked_idx = c.read_idx } in
      let full : HttpConn = record first { read_buf = b; read_idx = c.checked_idx + n } in
      (process_read host users c ≡ done (no_request, first, users))
      × (process_read host users full
          ≡ done (
            no_request,
            record full { start_line = c.read_idx; checked_idx = c.checked_idx + n },
            users,
          ))
process_read_split_body host users c b n k s e r k0 kn m p q =
    let first : HttpConn = record c { start_line = c.checked_idx; checked_idx = c.read_idx } in
    let full : HttpConn = record first { read_buf = b; read_idx = c.checked_idx + n } in
    (
      process_read-short host users c n s e (omega arith) (omega arith) (omega arith) p,
      process_read-short host users full n s e m (omega arith) (omega arith) q,
    )

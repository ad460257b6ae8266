-- ===== src/HttpConn/Process/Total.antt =====
-- The rounds of the loop of `process_read`, of version_03/http/http_conn.cpp.
use tiny_http.Prelude.{
  ℕ, zero, suc, ◌+◌, ◌-◌, ◌*◌, ◌<◌, ◌≤◌, ◌≡◌, ◌≢◌, inl, inr, refl, Bool, true, false, Run, timeout,
  ◌>>=◌, arith, Bool-cases, ltb, ◌&&◌, ◌==◌, if◌then◌else◌,
}
use tiny_http.Prelude.{Ends, returned, faulted, Halts, Ends-bind, Ends-if, Ends-ne-timeout}
use tiny_http.Libc.{Buf, load, store}
use tiny_http.Libc.Halting.{load-Halts, store-Halts}
use tiny_http.HttpConn.Types.{
  HttpConn, CheckState, check_state_requestline, check_state_header, check_state_content, HttpCode,
  no_request, get_request, bad_request, no_resource, forbidden_request, file_request,
  internal_error, closed_connection, LineStatus, line_ok, line_bad, line_open,
}
use tiny_http.HttpConn.Line.{Scanned, at_cr, at_lf, scan_line, parse_line, blank_two}
use tiny_http.HttpConn.Parse.{parse_request_line, parse_headers, parse_content}
use tiny_http.HttpConn.Parse.Halting.{
  Same, parse_request_line-Keeps, parse_headers-Keeps, parse_content-Keeps,
}
use tiny_http.HttpConn.Request.{Host, Users}
use tiny_http.HttpConn.Request.Halting.{do_request-Halts}
use tiny_http.HttpConn.Process.{
  Answer, Round, returns, continues, requested, in_content, is_ok, parse_in, after_line,
  after_content, go_on, round, process_loop, process_read,
}

-- Where a line is found, the scan moves on from `i`, and not beyond `r`.
abbrev Moves : ℕ → ℕ → Scanned → Type 0
Moves i r s = s.status ≡ line_ok → (i < s.checked) × (s.checked ≤ r)

blank_two-Halts : (b : Buf) (i j : ℕ) → Halts (blank_two b i j)
blank_two-Halts b i j = Ends-bind (store b i 0) _ (store-Halts _ _ _) (λ b' _. store-Halts _ _ _)

at_cr-Ends : (b : Buf) (r i : ℕ) → i < r → Ends (Moves i r) (at_cr b r i)
unfolding at_cr
at_cr-Ends b r i h = elim (Bool-cases (i + 1 == r)) [
  | inl last ↦ rw last (returned _ (λ e. cc))
  | inr more ↦
      let room : i + 2 ≤ r = ground arith in
      rw more (
        Ends-bind (load b (i + 1)) _ (load-Halts _ _) (λ next _.
          Ends-if (next == b'\n')
            (Ends-bind (blank_two b i (i + 1)) _ (blank_two-Halts _ _ _)
              (λ b' _. returned _ (λ e. (omega arith, room))))
            (returned _ (λ e. cc))))
]

at_lf-Ends : (b : Buf) (r i : ℕ) → i < r → Ends (Moves i r) (at_lf b i)
unfolding at_lf
at_lf-Ends b r i h =
    Ends-if (ltb 1 i)
      (Ends-bind (load b (i - 1)) _ (load-Halts _ _) (λ before _.
        Ends-if (before == b'\r')
          (Ends-bind (blank_two b (i - 1) i) _ (blank_two-Halts _ _ _)
            (λ b' _. returned _ (λ e. (omega arith, omega arith))))
          (returned _ (λ e. cc))))
      (returned _ (λ e. cc))

Moves-from : {i j r : ℕ} {m : Run Scanned} → i ≤ j → Ends (Moves j r) m → Ends (Moves i r) m
Moves-from h (returned s p) = returned s (λ e. (omega (arith, p e), omega (arith, p e)))
Moves-from h faulted = faulted

scan_line-Ends : (n : ℕ) (b : Buf) (r i : ℕ) → i + n ≡ r → Ends (Moves i r) (scan_line n b r i)
unfolding scan_line
scan_line-Ends zero b r i h = returned _ (λ e. cc)
scan_line-Ends (suc n) b r i h = Ends-bind (load b i) _ (load-Halts _ _) (λ t _.
    Ends-if (t == b'\r') (at_cr-Ends b r i (omega arith)) (
      Ends-if (t == b'\n') (at_lf-Ends b r i (omega arith)) (
        Moves-from {i = i} {j = i + 1} (omega arith) (scan_line-Ends n b r (i + 1) (omega arith)))))

-- What a call of `parse_line` leaves of the indices.
abbrev Reads : HttpConn → LineStatus × HttpConn → Type 0
Reads c x =
    (x.1.read_idx ≡ c.read_idx)
    × (x.0 ≡ line_ok → (c.checked_idx < x.1.checked_idx) × (x.1.checked_idx ≤ c.read_idx))

parse_line-Ends : (c : HttpConn) → c.checked_idx ≤ c.read_idx → Ends (Reads c) (parse_line c)
unfolding parse_line
parse_line-Ends c h =
    Ends-bind (scan_line _ c.read_buf c.read_idx c.checked_idx) _
      (scan_line-Ends (c.read_idx - c.checked_idx) c.read_buf c.read_idx c.checked_idx
        (omega arith))
      (λ s p. returned _ (refl, p))

-- What a round leaves: in the content the loop goes on with an open line only.
abbrev Goes : HttpConn → Bool → Round → Type 0
Goes c content (returns code d users) = Unit {0}
Goes c content (continues status d) = Same c d × (content ≡ true → is_ok status ≡ false)

module _ (host : Host) (users : Users) (c : HttpConn) where
  requested-Ends : (content : Bool) (m : Run Answer) → Halts m → Ends (Goes c content) (requested m)
  unfolding requested
  requested-Ends content m h = Ends-bind m _ h (λ r _. returned _ tt)

  after_line-Ends :
      (code : HttpCode) (d : HttpConn)
      → Same c d
      → Ends (Goes c false) (after_line host users code d)
  unfolding after_line
  after_line-Ends bad_request d s = returned _ tt
  after_line-Ends get_request d s = requested-Ends false _ (do_request-Halts host users d)
  after_line-Ends no_request d s = returned _ (s, λ e. cc)
  after_line-Ends no_resource d s = returned _ (s, λ e. cc)
  after_line-Ends forbidden_request d s = returned _ (s, λ e. cc)
  after_line-Ends file_request d s = returned _ (s, λ e. cc)
  after_line-Ends internal_error d s = returned _ (s, λ e. cc)
  after_line-Ends closed_connection d s = returned _ (s, λ e. cc)

  after_content-Ends :
      (code : HttpCode) (d : HttpConn)
      → Same c d
      → Ends (Goes c true) (after_content host users code d)
  unfolding after_content
  after_content-Ends get_request d s = requested-Ends true _ (do_request-Halts host users d)
  after_content-Ends bad_request d s = returned _ (s, λ e. refl)
  after_content-Ends no_request d s = returned _ (s, λ e. refl)
  after_content-Ends no_resource d s = returned _ (s, λ e. refl)
  after_content-Ends forbidden_request d s = returned _ (s, λ e. refl)
  after_content-Ends file_request d s = returned _ (s, λ e. refl)
  after_content-Ends internal_error d s = returned _ (s, λ e. refl)
  after_content-Ends closed_connection d s = returned _ (s, λ e. refl)

  parse_in-Ends :
      (state : CheckState) (d : HttpConn) (text : ℕ)
      → Same c d
      → Ends (Goes c (in_content state)) (parse_in host users state d text)
  unfolding parse_in
  parse_in-Ends check_state_requestline d text s =
      Ends-bind (parse_request_line d text) _ (parse_request_line-Keeps c d text s)
        (λ r k. after_line-Ends r.0 r.1 k)
  parse_in-Ends check_state_header d text s =
      Ends-bind (parse_headers d text) _ (parse_headers-Keeps c d text s)
        (λ r k. after_line-Ends r.0 r.1 k)
  parse_in-Ends check_state_content d text s =
      Ends-bind (parse_content d text) _ (parse_content-Keeps c d text s)
        (λ r k. after_content-Ends r.0 r.1 k)

  round-Ends : Ends (Goes c (in_content c.check_state)) (round host users c)
  unfolding round
  round-Ends = parse_in-Ends c.check_state _ _ (refl, refl)

-- The rounds that are left: two for each unread byte, one more where the last line was whole.
abbrev rounds : LineStatus → HttpConn → ℕ
rounds status c = 2 * (c.read_idx - c.checked_idx) + (if is_ok status then 1 else 0)

module _ (host : Host) (users : Users) where
  go_on-Halts :
      (c : HttpConn) (content : Bool) (again : LineStatus → HttpConn → Run Answer)
      → ((status : LineStatus) (d : HttpConn)
          → Goes c content (continues status d)
          → Halts (again status d))
      → (r : Round) → Goes c content r
      → Halts (go_on again r)
  go_on-Halts c content again k (returns code d users') g = returned _ tt
  go_on-Halts c content again k (continues status d) g = k status d g

  body-Halts :
      (c : HttpConn) (again : LineStatus → HttpConn → Run Answer)
      → ((status : LineStatus) (d : HttpConn)
          → Goes c (in_content c.check_state) (continues status d)
          → Halts (again status d))
      → Halts (round host users c >>= go_on again)
  body-Halts c again k =
      Ends-bind (round host users c) (go_on again) (round-Ends host users c)
        (λ r g. go_on-Halts c (in_content c.check_state) again k r g)

  rounds-le :
      (status : LineStatus) (c : HttpConn) → rounds status c ≤ 2 * (c.read_idx - c.checked_idx) + 1
  rounds-le line_ok c = omega arith
  rounds-le line_bad c = omega arith
  rounds-le line_open c = omega arith

  rounds_whole :
      (status : LineStatus) (c : HttpConn)
      → is_ok status ≡ true
      → rounds status c ≡ 2 * (c.read_idx - c.checked_idx) + 1
  rounds_whole status c h = rw h refl

  rounds_open :
      (status : LineStatus) (c : HttpConn)
      → is_ok status ≡ false
      → rounds status c ≡ 2 * (c.read_idx - c.checked_idx)
  rounds_open status c h = rw h (omega arith)

  is_ok-eq : (status : LineStatus) → is_ok status ≡ true → status ≡ line_ok
  is_ok-eq line_ok h = refl
  is_ok-eq line_bad h = cc
  is_ok-eq line_open h = cc

  rounds_ge :
      (status : LineStatus) (c : HttpConn) → 2 * (c.read_idx - c.checked_idx) ≤ rounds status c
  rounds_ge line_ok c = omega arith
  rounds_ge line_bad c = omega arith
  rounds_ge line_open c = omega arith

  &&-both : (a b : Bool) → (a && b) ≡ true → (a ≡ true) × (b ≡ true)
  &&-both true b h = (refl, h)
  &&-both false b h = cc

  process_loop-Halts :
      (fuel : ℕ) (status : LineStatus) (c : HttpConn)
      → c.checked_idx ≤ c.read_idx
      → rounds status c < fuel
      → Halts (process_loop fuel host users status c)
  unfolding process_loop
  process_loop-Halts zero status c h enough = absurd (omega arith)
  process_loop-Halts (suc fuel) status c h enough =
      elim (Bool-cases (in_content c.check_state && is_ok status)) [
        | inl content ↦
            let both : (in_content c.check_state ≡ true) × (is_ok status ≡ true) =
              &&-both _ _ content in
            rw content (
              body-Halts c (process_loop fuel host users) (λ status' d g.
                let old = rounds_whole status c both.1 in
                let new = rounds_open status' d (g.1 both.0) in
                let kept = g.0.0 in
                let still = g.0.1 in process_loop-Halts fuel status' d (omega arith) (omega arith)))
        | inr other ↦ rw other (
            Ends-bind (parse_line c) _ (parse_line-Ends c h) (λ line r.
              elim (Bool-cases (is_ok line.0)) [
                | inl whole ↦
                    let moved = r.1 (is_ok-eq line.0 whole) in
                    let kept = r.0 in
                    let before = rounds_ge status c in
                    rw whole (
                      body-Halts line.1 (process_loop fuel host users) (λ status' d g.
                        let kept' = g.0.0 in
                        let still = g.0.1 in
                        let next = rounds-le status' d in
                        process_loop-Halts fuel status' d (omega arith) (omega arith)))
                | inr cut ↦ rw cut (returned _ tt)
              ]))
      ]

-- On every connection whose m_checked_idx is not beyond its m_read_idx, and whatever its read
-- buffer holds, process_read returns or meets undefined behaviour: its loop never runs out of the
-- rounds it is given.
pub process_read-ne-timeout :
    (host : Host) (users : Users) (c : HttpConn)
    → c.checked_idx ≤ c.read_idx
    → process_read host users c ≢ timeout
unfolding process_read
process_read-ne-timeout host users c h =
    Ends-ne-timeout (process_loop-Halts host users (2 * c.read_idx + 2) line_ok c h (omega arith))

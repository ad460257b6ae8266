-- ===== src/HttpConn/Send/Deliver.antt =====
-- A reply with a file that is sent in pieces.
use tiny_http.Prelude.{
  ℕ, zero, suc, ◌+◌, ◌-◌, ◌<◌, ◌≤◌, ◌≡◌, ◌⊎◌, inl, inr, refl, sym, ap, ◌∙◌, Bool, true, false, List,
  [], ◌∷◌, ◌++◌, append_assoc, append-nil, Bytes, length, length-append, take, drop, length-drop,
  some, done, arith, Bool-cases, leb, ltb, not, ◌&&◌, ◌||◌, ◌%◌, ◌^◌, ◌==◌, codes,
}
use tiny_http.HttpConn.Reply.{process_write, two_buffers}
use tiny_http.HttpConn.Reply.Fits.{header_text, process_write-file}
use tiny_http.Libc.{int_max}
use tiny_http.HttpConn.Types.{HttpConn, file_request, epollout, modfd, init}
use tiny_http.HttpConn.Send.{
  Writev, wrote, again, failed, Written, kept, pending, slice, is_negative, is_sent, sub_int,
  gather, advance, finish, write_loop, write, unmap,
}

pub take_all : (xs : Bytes) (n : ℕ) → length xs ≤ n → take n xs ≡ xs
take_all [] zero h = refl
take_all [] (suc n) h = refl
take_all (x ∷ xs) zero h = absurd (omega arith)
take_all (x ∷ xs) (suc n) h = ap (◌∷◌ x) (take_all xs n (omega arith))

take-drop-length : (n : ℕ) (xs : Bytes) → take n xs ++ drop (length (take n xs)) xs ≡ xs
take-drop-length zero xs = refl
take-drop-length (suc n) [] = refl
take-drop-length (suc n) (x ∷ xs) = ap (◌∷◌ x) (take-drop-length n xs)

drop_nil : (n : ℕ) → drop {A = ℕ} n [] ≡ []
drop_nil zero = refl
drop_nil (suc n) = refl

drop-drop : (m n : ℕ) (xs : Bytes) → drop (m + n) xs ≡ drop n (drop m xs)
drop-drop zero n xs = ap (λ k. drop k xs) (omega arith)
drop-drop (suc m) n [] = drop_nil (suc m + n) ∙ sym (drop_nil n)
drop-drop (suc m) n (x ∷ xs) =
    let e : suc m + n ≡ suc (m + n) = omega arith in ap (λ k. drop k (x ∷ xs)) e ∙ drop-drop m n xs

drop-append : (xs ys : Bytes) (n : ℕ) → length xs ≤ n → drop n (xs ++ ys) ≡ drop (n - length xs) ys
drop-append [] ys n h = ap (λ k. drop k ys) (omega arith)
drop-append (x ∷ xs) ys zero h = absurd (omega arith)
drop-append (x ∷ xs) ys (suc n) h =
    drop-append xs ys n (omega arith) ∙ ap (λ k. drop k ys) (omega arith)

length-take_le : (n : ℕ) (xs : Bytes) → length (take n xs) ≤ length xs
length-take_le zero xs = omega arith
length-take_le (suc n) [] = omega arith
length-take_le (suc n) (x ∷ xs) = omega (arith, length-take_le n xs)

-- No call of `writev` fails.
abbrev pub NoFailure : List Writev → Type 0
NoFailure [] = Unit {0}
NoFailure (failed ∷ events) = ⊥
NoFailure (event ∷ events) = NoFailure events

drop_all : (xs : Bytes) (n : ℕ) → length xs ≤ n → drop n xs ≡ []
drop_all [] n h = drop_nil n
drop_all (x ∷ xs) zero h = absurd (omega arith)
drop_all (x ∷ xs) (suc n) h = drop_all xs n (omega arith)

-- Of a reply with the header `h` and the file `f`, as much is sent as `c` counts; `before` was sent
-- before it. `writev` has what is left of it.
pub record Sending (before h f : Bytes) (c : HttpConn) : Type 0 where
  pub file : c.file ≡ some f
  pub header : c.write_buf ≡ h
  pub count : c.iv_count ≡ 2
  pub total : c.bytes_have_send + c.bytes_to_send ≡ length h + length f
  pub fits : length h + length f ≤ int_max
  pub gathers : gather c ≡ done (drop c.bytes_have_send (h ++ f))
  pub base : c.iv0.base ≤ length h
  pub len : c.iv0.len ≤ length h
  pub sent : c.output ++ drop c.bytes_have_send (h ++ f) ≡ before ++ (h ++ f)

-- What `writev` has where the header is sent.
gather_file :
    (h f : Bytes) (c : HttpConn)
    → c.file ≡ some f
    → c.write_buf ≡ h
    → c.iv_count ≡ 2
    → c.iv0.len ≡ 0
    → c.iv0.base ≤ length h
    → c.iv1.base + c.iv1.len ≡ length f
    → gather c ≡ done (drop c.iv1.base f)
unfolding gather slice
gather_file h f c ef eh ec e0 b l =
    let first : leb (c.iv0.base + c.iv0.len) (length c.write_buf) ≡ true =
      ground (arith, ap (λ (z : Bytes). length z) eh) in
    let second : leb (c.iv1.base + c.iv1.len) (length f) ≡ true = ground arith in
    let two : (c.iv_count == 1) ≡ false = ground arith in
    rw (ef, first, second, two, e0)
      (ap (λ (z : Bytes). done z)
        (take_all (drop c.iv1.base f) c.iv1.len (omega (arith, length-drop c.iv1.base f))))

module _ (before h f : Bytes) where
  -- Sending on past the header.
  advance-Sending :
      (c : HttpConn) (n : ℕ)
      → Sending before h f c
      → let sent = take n (drop c.bytes_have_send (h ++ f)) in
        length h ≤ c.bytes_have_send + length sent
        → (c' : HttpConn) × (advance (record c { output = c.output ++ sent }) (length sent)
            ≡ done c')
          × Sending before h f c'
          × (length h ≤ c'.bytes_have_send)
          × (c'.linger ≡ c.linger)
  unfolding advance
  advance-Sending c n s past =
      let x = h ++ f in
      let rest = drop c.bytes_have_send x in
      let sent = take n rest in
      let k = length sent in
      let wl : length c.write_buf ≡ length h = ap (λ (z : Bytes). length z) s.header in
      let fits : k ≤ c.bytes_to_send = omega (
        arith,
        length-take_le n rest,
        length-drop c.bytes_have_send x,
        length-append h f,
        s.total,
      ) in
      let left : sub_int c.bytes_to_send k ≡ c.bytes_to_send - k =
        omega (arith, fits, s.total, s.fits) in
      let ints : (ltb int_max (c.bytes_have_send + k)
            || (is_negative c.bytes_to_send && not (is_negative (sub_int c.bytes_to_send k))))
          ≡ false =
        ground (arith, fits, s.total, s.fits) in
      let covers : leb c.iv0.len (c.bytes_have_send + k) ≡ true = ground (arith, s.len) in
      let inside : ltb (c.bytes_have_send + k) (length c.write_buf) ≡ false = ground (arith, wl) in
      let c' : HttpConn = record c {
        output = c.output ++ sent;
        bytes_have_send = c.bytes_have_send + k;
        bytes_to_send = c.bytes_to_send - k;
        iv0 = record { base = c.iv0.base; len = 0 };
        iv1 = record {
          base = c.bytes_have_send + k - length c.write_buf;
          len = c.bytes_to_send - k;
        };
      } in
      let behind : drop (c.bytes_have_send + k) x
          ≡ drop (c.bytes_have_send + k - length c.write_buf) f =
        drop-append h f (c.bytes_have_send + k) past
        ∙ ap (λ z. drop (c.bytes_have_send + k - z) f) (sym wl) in
      (
        c',
        rw (ints, left, covers, inside) refl,
        record {
          file = s.file;
          header = s.header;
          count = s.count;
          total = omega (arith, s.total);
          fits = s.fits;
          gathers =
              gather_file h f c' s.file s.header s.count refl s.base (omega (arith, s.total))
              ∙ ap (λ (z : Bytes). done z) (sym behind);
          base = s.base;
          len = omega arith;
          sent =
              append_assoc c.output sent (drop (c.bytes_have_send + k) x)
              ∙ ap (λ z. c.output ++ (sent ++ z)) (drop-drop c.bytes_have_send k x)
              ∙ ap (λ z. c.output ++ z) (take-drop-length n rest)
              ∙ s.sent;
        },
        past,
        refl,
      )

  -- The header is sent, and something is left.
  abbrev pub IsStreaming : HttpConn → Type 0
  IsStreaming c = Sending before h f c × (length h ≤ c.bytes_have_send) × (0 < c.bytes_to_send)

  -- All is sent, and nothing else.
  abbrev IsComplete : HttpConn → Type 0
  IsComplete c = c.output ≡ before ++ (h ++ f)

  abbrev Delivers : List Writev → HttpConn → Type 0
  Delivers events c =
      (w : Written) × (c' : HttpConn) × (write_loop events c ≡ done (w, c'))
      × (IsStreaming c' ⊎ IsComplete c')

  output-finish : (c : HttpConn) → (finish c).1.output ≡ c.output
  unfolding finish unmap modfd init
  output-finish c = ground arith

  finish-IsComplete :
      (c : HttpConn) → Sending before h f c → c.bytes_to_send ≡ 0 → IsComplete (finish c).1
  finish-IsComplete c s z =
      let nothing : drop c.bytes_have_send (h ++ f) ≡ [] =
        drop_all (h ++ f) c.bytes_have_send (omega (arith, length-append h f, s.total)) in
      output-finish c ∙ sym (append-nil c.output) ∙ ap (λ z. c.output ++ z) (sym nothing) ∙ s.sent

  modfd-Sending : (c : HttpConn) → Sending before h f c → Sending before h f (modfd c epollout)
  unfolding modfd gather slice
  modfd-Sending c s = record {
    file = s.file;
    header = s.header;
    count = s.count;
    total = s.total;
    fits = s.fits;
    gathers = s.gathers;
    base = s.base;
    len = s.len;
    sent = s.sent;
  }

  all_sent :
      (c : HttpConn) → Sending before h f c → is_sent c.bytes_to_send ≡ true → c.bytes_to_send ≡ 0
  all_sent c s z = ground (arith, s.total, s.fits)

  -- A round that sends on past the header.
  write_loop-wrote :
      (n : ℕ) (events : List Writev) (c : HttpConn)
      → ((c' : HttpConn) → IsStreaming c' → Delivers events c')
      → Sending before h f c
      → length h ≤ c.bytes_have_send + length (take n (drop c.bytes_have_send (h ++ f)))
      → Delivers (wrote n ∷ events) c
  unfolding write_loop
  write_loop-wrote n events c rest s past =
      let (c', e, s', p, _) = advance-Sending c n s past in
      elim (Bool-cases (is_sent c'.bytes_to_send)) [
        | inl z ↦ (
          (finish c').0,
          (finish c').1,
          rw (s.gathers, e, z) refl,
          inr (finish-IsComplete c' s' (all_sent c' s' z)),
        )
        | inr more ↦
            let (w, c'', e', r) = rest c' (s', p, ground arith) in
            (w, c'', rw (s.gathers, e, more) e', r)
      ]

  write_loop-deliver :
      (events : List Writev) (c : HttpConn) → NoFailure events → IsStreaming c → Delivers events c
  unfolding write_loop modfd
  write_loop-deliver [] c ok s = (pending, c, refl, inl s)
  write_loop-deliver (again ∷ events) c ok s =
      (kept, modfd c epollout, refl, inl (modfd-Sending c s.0, s.1, s.2))
  write_loop-deliver (failed ∷ events) c ok s = absurd ok
  write_loop-deliver (wrote n ∷ events) c ok s =
      write_loop-wrote n events c (λ c' t. write_loop-deliver events c' ok t) s.0
        (omega (arith, s.1))

-- While a reply with a file is being sent, of at most 2^31 - 1 bytes with its header, and its
-- header is out, a call of write in which no writev fails returns or waits for a writev; then the
-- reply is still being sent, with nothing lost and nothing sent twice, or all of it is out.
pub write-IsStreaming :
    (before h f : Bytes) (events : List Writev) (c : HttpConn)
    → NoFailure events
    → IsStreaming before h f c
    → (w : Written) × (c' : HttpConn) × (write events c ≡ done (w, c'))
      × (IsStreaming before h f c' ⊎ (c'.output ≡ before ++ (h ++ f)))
unfolding write
write-IsStreaming before h f events c ok s =
    let (w, c', e, r) = write_loop-deliver before h f events c ok s in
    let more : (c.bytes_to_send == 0) ≡ false = ground (arith, s.2) in (w, c', rw more e, r)

pub two_buffers-Sending :
    (before f : Bytes) (c : HttpConn)
    → c.file ≡ some f
    → c.output ≡ before
    → c.bytes_have_send ≡ 0
    → length c.write_buf + length f ≤ int_max
    → Sending before c.write_buf f (two_buffers c (length f))
unfolding two_buffers gather slice
two_buffers-Sending before f c ef eo e0 k =
    let h = c.write_buf in
    let first : leb (0 + length h) (length h) ≡ true = ground arith in
    let second : leb (0 + length f) (length f) ≡ true = ground arith in
    let all : drop c.bytes_have_send (h ++ f) ≡ h ++ f = ap (λ n. drop n (h ++ f)) e0 in
    record {
      file = ef;
      header = refl;
      count = refl;
      total = omega arith;
      fits = k;
      gathers =
          rw (ef, first, second)
            (ap (λ (z : Bytes). done z)
              (ap (λ z. z ++ take (length f) f) (take_all h (length h) (omega arith))
                ∙ ap (λ z. h ++ z) (take_all f (length f) (omega arith))))
          ∙ ap (λ (z : Bytes). done z) (sym all);
      base = omega arith;
      len = omega arith;
      sent = ap (λ z. c.output ++ z) all ∙ ap (λ z. z ++ (h ++ f)) eo;
    }

le-length-take : (k n : ℕ) (xs : Bytes) → k ≤ n → k ≤ length xs → k ≤ length (take n xs)
le-length-take k zero xs p q = omega arith
le-length-take k (suc n) [] p q = omega arith
le-length-take zero (suc n) (x ∷ xs) p q = omega arith
le-length-take (suc k) (suc n) (x ∷ xs) p q =
    omega (arith, le-length-take k n xs (omega arith) (omega arith))

two_buffers-write :
    (before f : Bytes) (c : HttpConn) (n : ℕ) (events : List Writev)
    → c.file ≡ some f
    → c.output ≡ before
    → c.bytes_have_send ≡ 0
    → 0 < length f
    → length c.write_buf + length f ≤ int_max
    → NoFailure events
    → length c.write_buf ≤ n
    → (w : Written) × (c' : HttpConn) × (write (wrote n ∷ events) (two_buffers c (length f))
        ≡ done (w, c'))
      × (IsStreaming before c.write_buf f c' ⊎ (c'.output ≡ before ++ (c.write_buf ++ f)))
unfolding write two_buffers
two_buffers-write before f c n events ef eo e0 lf k ok big =
    let h = c.write_buf in
    let c1 = two_buffers c (length f) in
    let all : drop c.bytes_have_send (h ++ f) ≡ h ++ f = ap (λ n. drop n (h ++ f)) e0 in
    let more : ((length h + length f) % 2 ^ 32 == 0) ≡ false = ground arith in
    let enough = le-length-take (length h) n (h ++ f) big (omega (arith, length-append h f)) in
    let (w, c', e, r) =
      write_loop-wrote before h f n events c1 (λ d s. write_loop-deliver before h f events d ok s)
        (two_buffers-Sending before f c ef eo e0 k)
        (omega (arith, ap (λ z. length (take n z)) all, enough)) in
    (w, c', rw more e, r)

-- From an empty write buffer, a reply with a file that is not empty, where header and file together
-- are at most 2^31 - 1 bytes: if the first writev takes the header at least, and none fails, the
-- call of write returns or waits for a writev, and then either the header is out and the file is
-- still being sent, or header and file are out, and nothing else.
pub process_write-write :
    (c : HttpConn) (f : Bytes) (n : ℕ) (events : List Writev)
    → c.write_buf ≡ []
    → c.file ≡ some f
    → 0 < length f
    → length (header_text 200 (codes "OK") (length f) c.linger) + length f ≤ int_max
    → c.bytes_have_send ≡ 0
    → NoFailure events
    → length (header_text 200 (codes "OK") (length f) c.linger) ≤ n
    → let h = header_text 200 (codes "OK") (length f) c.linger in
      (w : Written) × (c' : HttpConn) × (write (wrote n ∷ events) (process_write c file_request).1
        ≡ done (w, c'))
      × (IsStreaming c.output h f c' ⊎ (c'.output ≡ c.output ++ (h ++ f)))
process_write-write c f n events e ef lf k h0 ok big =
    let h = header_text 200 (codes "OK") (length f) c.linger in
    let (w, c', p, r) =
      two_buffers-write c.output f (record c { write_buf = h }) n events ef refl h0 lf k ok big in
    (
      w,
      c',
      ap (λ (r : Bool × HttpConn). write (wrote n ∷ events) r.1)
            (process_write-file c f e ef lf (omega arith))
          ∙ p,
      r,
    )

-- ===== src/HttpConn/Send/Split.antt =====
-- A header that is sent in more than two pieces.
use tiny_http.Prelude.{
  ℕ, ◌+◌, ◌-◌, ◌<◌, ◌≤◌, ◌≡◌, refl, ap, ◌∙◌, true, false, List, [], ◌∷◌, ◌++◌, Bytes, length,
  length-append, ltb, not, ◌&&◌, ◌||◌, ◌%◌, ◌^◌, take, drop, length-drop, length-take, some, done,
  arith, leb, ◌==◌,
}
use tiny_http.Libc.{int_max}
use tiny_http.HttpConn.Types.{HttpConn}
use tiny_http.HttpConn.Reply.{two_buffers}
use tiny_http.HttpConn.Send.{
  Writev, wrote, pending, slice, is_negative, is_sent, sub_int, gather, advance, write_loop, write,
}
use tiny_http.HttpConn.Send.Deliver.{take_all}

-- `n` bytes are sent, fewer than `m_iv[0].iov_len` with what was sent before.
module _ (c : HttpConn) (n : ℕ) (bytes : Bytes) where
  abbrev cut_header : HttpConn
  cut_header = record c {
    output = c.output ++ take n bytes;
    bytes_have_send = c.bytes_have_send + n;
    bytes_to_send = c.bytes_to_send - n;
    iv0 = record { base = c.bytes_have_send + n; len = c.iv0.len - (c.bytes_have_send + n) };
  }

  write_loop-cut :
      (events : List Writev)
      → gather c ≡ done bytes
      → n ≤ length bytes
      → c.bytes_have_send + n < c.iv0.len
      → n < c.bytes_to_send
      → c.bytes_to_send ≤ int_max
      → c.bytes_have_send + n ≤ int_max
      → write_loop (wrote n ∷ events) c ≡ write_loop events cut_header
  unfolding write_loop advance
  write_loop-cut events g l h t i j =
      let k : length (take n bytes) ≡ n = length-take n bytes l in
      let header : leb c.iv0.len (c.bytes_have_send + n) ≡ false = ground arith in
      let left : sub_int c.bytes_to_send n ≡ c.bytes_to_send - n = omega arith in
      let ints : (ltb int_max (c.bytes_have_send + n)
            || (is_negative c.bytes_to_send && not (is_negative (sub_int c.bytes_to_send n))))
          ≡ false =
        ground arith in
      let more : is_sent (c.bytes_to_send - n) ≡ false = ground arith in
      rw (g, k, ints, left, header, more) refl

gather_lem :
    (c : HttpConn) (f : Bytes)
    → c.file ≡ some f
    → c.iv_count ≡ 2
    → c.iv1 ≡ record { base = 0; len = length f }
    → c.iv0.base + c.iv0.len ≤ length c.write_buf
    → gather c ≡ done (take c.iv0.len (drop c.iv0.base c.write_buf) ++ f)
unfolding gather slice
gather_lem c f ef ec e1 h =
    let first : leb (c.iv0.base + c.iv0.len) (length c.write_buf) ≡ true = ground arith in
    let second : leb (0 + length f) (length f) ≡ true = ground arith in
    let two : (c.iv_count == 1) ≡ false = ground arith in
    rw (ef, first, e1, second, two)
      (ap (λ (z : Bytes). done (take c.iv0.len (drop c.iv0.base c.write_buf) ++ z))
        (take_all f (length f) (omega arith)))

-- Of a reply of at most 2^31 - 1 bytes, a header of which two calls of writev take a and b bytes,
-- with more than a bytes left: what the next writev is given of the reply is a bytes shorter than
-- what is left to send.
pub write_split :
    (c : HttpConn) (f : Bytes) (a b : ℕ)
    → c.file ≡ some f
    → c.bytes_have_send ≡ 0
    → 0 < length f
    → a + (a + b) < length c.write_buf
    → length c.write_buf + length f ≤ int_max
    → (c' : HttpConn) × (rest : Bytes) × (write (wrote a ∷ wrote b ∷ []) (two_buffers c (length f))
        ≡ done (pending, c'))
      × (gather c' ≡ done rest)
      × (length rest + a ≡ c'.bytes_to_send)
unfolding write two_buffers
write_split c f a b ef h0 lf h k =
    let w = c.write_buf in
    let c1 = two_buffers c (length f) in
    let c2 = cut_header c1 a (w ++ f) in
    let left : Bytes = take c2.iv0.len (drop c2.iv0.base w) in
    let c3 = cut_header c2 b (left ++ f) in
    let left' : Bytes = take c3.iv0.len (drop c3.iv0.base w) in
    let more : ((length w + length f) % 2 ^ 32 == 0) ≡ false = ground arith in
    let l1 : length left ≡ c2.iv0.len =
      length-take c2.iv0.len (drop c2.iv0.base w) (omega (arith, length-drop c2.iv0.base w)) in
    let l2 : length left' ≡ c3.iv0.len =
      length-take c3.iv0.len (drop c3.iv0.base w) (omega (arith, length-drop c3.iv0.base w)) in
    let first : write_loop (wrote a ∷ wrote b ∷ []) c1 ≡ write_loop (wrote b ∷ []) c2 =
      write_loop-cut c1 a (w ++ f) (wrote b ∷ [])
        (gather_lem c1 f ef refl refl (omega arith)
          ∙ ap (λ (z : Bytes). done (z ++ f)) (take_all w (length w) (omega arith)))
        (omega (arith, length-append w f)) (omega arith) (omega arith) (omega arith)
        (omega arith) in
    let second : write_loop (wrote b ∷ []) c2 ≡ write_loop [] c3 =
      write_loop-cut c2 b (left ++ f) [] (gather_lem c2 f ef refl refl (omega arith))
        (omega (arith, length-append left f, l1)) (omega arith) (omega arith) (omega arith)
        (omega arith) in
    (
      c3,
      left' ++ f,
      rw more (first ∙ second),
      gather_lem c3 f ef refl refl (omega arith),
      omega (arith, length-append left' f, l2),
    )

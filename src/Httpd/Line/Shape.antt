-- ===== src/Httpd/Line/Shape.antt =====
-- What `get_line` makes of a line that ends in "\r\n".
use tiny_http.Prelude.{
  ℕ, suc, ◌+◌, ◌-◌, ◌<◌, ◌≤◌, ◌≡◌, ◌≢◌, refl, sym, ap, ◌∙◌, [], ◌∷◌, ◌++◌, append_assoc, append-nil,
  Bytes, length, length-append, drop, done, arith,
}
use tiny_http.Libc.{Buf, store}
use tiny_http.Libc.Laws.{load_at, load_after, store_at, store_after, Lacks}
use tiny_http.Httpd.Line.{Got, read_loop, strip_at, terminate, terminate_replaced, get_line}

read_loop-step :
    (input : Bytes) (pre : Bytes) (x b size i c : ℕ) (old : Bytes)
    → i ≡ length pre
    → i < size - 1
    → c ≢ b'\n'
    → read_loop (b ∷ input) (pre ++ x ∷ old) size i c
      ≡ read_loop input (pre ++ b ∷ old) size (i + 1) b
unfolding read_loop
read_loop-step input pre x b size i c old e h n =
    let s : store (pre ++ x ∷ old) i b ≡ done (pre ++ b ∷ old) = rw e (store_at pre x b old) in
    ground (arith, s)

pub read_loop-newline :
    (input : Bytes) (buf : Buf) (size i c : ℕ)
    → c ≡ b'\n'
    → read_loop input buf size i c ≡ done (record { count = i; buf = buf; rest = input })
unfolding read_loop
read_loop-newline [] buf size i c e = refl
read_loop-newline (b ∷ input) buf size i c e = ground arith

-- A whole line is read into the buffer, from index `i` on.
read_loop-line :
    (line rest pre old : Bytes) (size i c : ℕ)
    → i ≡ length pre
    → c ≢ b'\n'
    → Lacks b'\n' line
    → i + length line < size - 1
    → length line < length old
    → read_loop (line ++ b'\n' ∷ rest) (pre ++ old) size i c
      ≡ done (record {
        count = i + length line + 1;
        buf = pre ++ line ++ b'\n' ∷ drop (suc (length line)) old;
        rest = rest;
      })
read_loop-line line rest pre [] size i c e n l h k = absurd (omega arith)
read_loop-line [] rest pre (x ∷ old) size i c e n l h k =
    read_loop-step rest pre x b'\n' size i c old e (omega arith) n
    ∙ read_loop-newline rest (pre ++ b'\n' ∷ old) size (i + 1) b'\n' refl
    ∙ ap (λ (r : Got). done r)
        (λ j. record {
          count = (let q : i + 1 ≡ i + 0 + 1 = omega arith in q) j;
          buf = (sym (append-nil pre) j) ++ b'\n' ∷ old;
          rest = rest;
        })
read_loop-line (b ∷ line) rest pre (x ∷ old) size i c e n l h k =
    read_loop-step (line ++ b'\n' ∷ rest) pre x b size i c old e (omega arith) n
    ∙ ap (λ (z : Bytes). read_loop (line ++ b'\n' ∷ rest) z size (i + 1) b) (split b old)
    ∙ read_loop-line line rest (pre ++ b ∷ []) old size (i + 1) b
        (omega (arith, length-append pre (b ∷ []))) l.0 l.1 (omega arith) (omega arith)
    ∙ ap (λ (r : Got). done r)
        (λ j. record {
          count =
              (let q : i + 1 + length line + 1 ≡ i + length (b ∷ line) + 1 = omega arith in q) j;
          buf = (append_assoc pre (b ∷ []) line j) ++ b'\n' ∷ drop (suc (length line)) old;
          rest = rest;
        })
  where
    split : (y : ℕ) (ys : Bytes) → pre ++ y ∷ ys ≡ (pre ++ y ∷ []) ++ ys
    split y ys = sym (append_assoc pre (y ∷ []) ys)

strip_at-crlf :
    (body post rest : Bytes)
    → strip_at (suc (suc (length body))) (body ++ b'\r' ∷ b'\n' ∷ post) rest
      ≡ done (record { count = length body + 1; buf = body ++ b'\n' ∷ 0 ∷ post; rest = rest })
unfolding strip_at terminate terminate_replaced
strip_at-crlf body post rest = rw (load_after body b'\r' b'\n' post) (
    rw (load_at body b'\r' (b'\n' ∷ post)) (
      rw (store_at body b'\r' b'\n' (b'\n' ∷ post)) (
        rw (store_after body b'\n' b'\n' 0 post) (
          ap (λ (n : ℕ). done (record { count = n; buf = body ++ b'\n' ∷ 0 ∷ post; rest = rest }))
            (omega arith)))))

Lacks-append : (c : ℕ) (xs bs : Bytes) → Lacks c xs → Lacks c bs → Lacks c (xs ++ bs)
Lacks-append c [] bs h k = k
Lacks-append c (a ∷ xs) bs h k = (h.0, Lacks-append c xs bs h.1 k)

read_loop-crlf :
    (body rest : Bytes) (buf : Buf) (size : ℕ)
    → Lacks b'\n' body
    → length body + 2 < size
    → size ≤ length buf
    → read_loop (body ++ b'\r' ∷ b'\n' ∷ rest) buf size 0 0
      ≡ done (record {
        count = suc (suc (length body));
        buf = body ++ b'\r' ∷ b'\n' ∷ drop (length body + 2) buf;
        rest = rest;
      })
read_loop-crlf body rest buf size l h k =
    ap (λ (z : Bytes). read_loop z buf size 0 0)
      (sym (append_assoc body (b'\r' ∷ []) (b'\n' ∷ rest)))
    ∙ read_loop-line (body ++ b'\r' ∷ []) rest [] buf size 0 0 refl (omega arith)
        (Lacks-append b'\n' body (b'\r' ∷ []) l (omega arith, tt)) (omega (arith, n))
        (omega (arith, n))
    ∙ ap (λ (r : Got). done r)
        (λ j. record {
          count =
              (let q : 0 + length (body ++ b'\r' ∷ []) + 1 ≡ suc (suc (length body)) =
                    omega (arith, n) in
                  q)
                j;
          buf = (tail_is j);
          rest = rest;
        })
  where
    n : length (body ++ b'\r' ∷ []) ≡ length body + 1
    n = length-append body (b'\r' ∷ [])

    count_is : suc (length (body ++ b'\r' ∷ [])) ≡ length body + 2
    count_is = omega (arith, n)

    tail_is :
        (body ++ b'\r' ∷ []) ++ b'\n' ∷ drop (suc (length (body ++ b'\r' ∷ []))) buf
        ≡ body ++ b'\r' ∷ b'\n' ∷ drop (length body + 2) buf
    tail_is =
        append_assoc body (b'\r' ∷ []) (b'\n' ∷ drop (suc (length (body ++ b'\r' ∷ []))) buf)
        ∙ ap (λ (z : ℕ). body ++ b'\r' ∷ b'\n' ∷ drop z buf) count_is

-- A line that ends in CR LF and fits is left in the buffer as a string that ends in LF, its length
-- is returned, the rest of the buffer stands, and exactly the line is consumed.
pub get_line-crlf :
    (body rest : Bytes) (buf : Buf) (size : ℕ)
    → Lacks b'\n' body
    → length body + 2 < size
    → size ≤ length buf
    → get_line (body ++ b'\r' ∷ b'\n' ∷ rest) buf size
      ≡ done (record {
        count = length body + 1;
        buf = body ++ b'\n' ∷ 0 ∷ drop (length body + 2) buf;
        rest = rest;
      })
unfolding get_line
get_line-crlf body rest buf size l h k =
    rw (read_loop-crlf body rest buf size l h k)
      (strip_at-crlf body (drop (length body + 2) buf) rest)

-- ===== src/Httpd/Line/Safety.antt =====
-- When `get_line` stays inside its buffer, whatever the peer sends.
use tiny_http.Prelude.{
  ℕ, zero, suc, ◌+◌, ◌-◌, ◌<◌, ◌≤◌, ◌≡◌, ◌≢◌, ◌↔◌, ◌⊎◌, inl, inr, refl, ap, ◌∙◌, subst, true, [],
  ◌∷◌, Bytes, length, done, fault, timeout, arith, Bool-cases, ltb, not, ◌&&◌, ◌==◌,
}
use native.Mathlib.Decide.{ℕ_discrete}
use tiny_http.Libc.{Buf, load}
use tiny_http.Libc.Laws.{load_in, store_in, load-store_ne, load-store_self}
use tiny_http.Httpd.Line.Shape.{read_loop-newline}
use tiny_http.Httpd.Line.{Got, read_loop, strip_at, terminate, terminate_replaced, get_line}

-- What the loop has done when it stops, started at index `i` with `buf` and `input`: no byte is
-- lost, no array bound is passed, and what stood below `i` still stands.
record Looped (input : Bytes) (buf : Buf) (size i : ℕ) (g : Got) : Type 0 where
  bytes : g.count + length g.rest ≡ i + length input
  from : i ≤ g.count
  bound : g.count ≤ size - 1
  same_length : length g.buf ≡ length buf
  below : (k : ℕ) → k < i → load g.buf k ≡ load buf k

read_loop-Looped :
    (input : Bytes) (buf : Buf) (size i c : ℕ)
    → i ≤ size - 1
    → size ≤ length buf
    → (g : Got) × (read_loop input buf size i c ≡ done g) × Looped input buf size i g
unfolding read_loop
read_loop-Looped [] buf size i c h k = (
  record { count = i; buf = buf; rest = [] },
  refl,
  record { bytes = refl; from = omega arith; bound = h; same_length = refl; below = λ k l. refl },
)
read_loop-Looped (b ∷ input) buf size i c h k =
    elim (Bool-cases (ltb i (size - 1) && not (c == b'\n'))) [
      | inr stop ↦ (
        record { count = i; buf = buf; rest = b ∷ input },
        rw stop refl,
        record {
          bytes = refl;
          from = omega arith;
          bound = h;
          same_length = refl;
          below = λ k l. refl;
        },
      )
      | inl more ↦
          let i< : i < size - 1 = ground arith in
          let (buf', s, l) = store_in buf i b (omega arith) in
          let (g, e, p) = read_loop-Looped input buf' size (i + 1) b (omega arith) (omega arith) in
          (
            g,
            rw (more, s) e,
            record {
              bytes = omega (arith, p.bytes);
              from = omega (arith, p.from);
              bound = p.bound;
              same_length = p.same_length ∙ l;
              below = λ k m. p.below k (omega arith) ∙ load-store_ne buf i k b s (omega arith);
            },
          )
    ]

-- What `get_line` promises: it read something, the string that it leaves fits with its
-- terminator, the buffer keeps its size.
pub record IsLine (input : Bytes) (buf : Buf) (size : ℕ) (g : Got) : Type 0 where
  pub positive : 0 < g.count
  pub fits : g.count < size
  pub terminated : load g.buf g.count ≡ done 0
  pub same_length : length g.buf ≡ length buf
  pub consumes : length g.rest < length input

module _ (buf : Buf) (rest : Bytes) where
  -- what `strip_at` leaves, at `n` bytes read
  abbrev Stripped : ℕ → Got → Type 0
  Stripped n g =
      (0 < g.count)
      × (g.count ≤ n)
      × (load g.buf g.count ≡ done 0)
      × (length g.buf ≡ length buf)
      × (g.rest ≡ rest)

  terminate-Stripped :
      (n k : ℕ)
      → 0 < k
      → k ≤ n
      → k < length buf
      → (g : Got) × (terminate buf k rest ≡ done g) × Stripped n g
  unfolding terminate
  terminate-Stripped n k p q h =
      let (b, s, l) = store_in buf k 0 h in
      (
        record { count = k; buf = b; rest = rest },
        rw s refl,
        (p, q, load-store_self buf k 0 s, l, refl),
      )

terminate_replaced-Stripped :
    (buf : Buf) (rest : Bytes) (k : ℕ)
    → suc (suc k) < length buf
    → (g : Got) × (terminate_replaced buf k rest ≡ done g) × Stripped buf rest (suc (suc k)) g
unfolding terminate_replaced
terminate_replaced-Stripped buf rest k h =
    let (b, s, l) = store_in buf k b'\n' (omega arith) in
    let (g, e, (p, q, t, m, r)) =
      terminate-Stripped b rest (suc (suc k)) (suc k) (omega arith) (omega arith) (omega arith) in
    (g, rw s e, (p, q, t, m ∙ l, r))

strip_at-Stripped :
    (buf : Buf) (rest : Bytes) (n b : ℕ)
    → 0 < n
    → n < length buf
    → load buf 0 ≡ done b
    → b ≢ b'\n'
    → (g : Got) × (strip_at n buf rest ≡ done g) × Stripped buf rest n g
unfolding strip_at
strip_at-Stripped buf rest zero b p h e ne = absurd (omega arith)
strip_at-Stripped buf rest (suc zero) b p h e ne =
    let (g, t, s) = terminate-Stripped buf rest 1 1 (omega arith) (omega arith) h in
    (g, rw e (ground (arith, t)), s)
strip_at-Stripped buf rest (suc (suc k)) b p h e ne =
    let (x, lx) = load_in buf (suc k) (omega arith) in
    let (y, ly) = load_in buf k (omega arith) in
    let (g, t, s) =
      terminate-Stripped buf rest (suc (suc k)) (suc (suc k)) (omega arith) (omega arith) h in
    let (g', t', s') = terminate_replaced-Stripped buf rest k h in
    elim (Bool-cases (x == b'\n')) [
      | inr other ↦ (g, rw (lx, other) t, s)
      | inl lf ↦ elim (Bool-cases (y == b'\r')) [
        | inr other ↦ (g, rw (lx, lf, ly, other) t, s)
        | inl cr ↦ (g', rw (lx, lf, ly, cr) t', s')
      ]
    ]

-- If the first byte to read is no newline, get_line returns a positive length below the buffer's
-- size, with a NUL at that index, the buffer's size unchanged and at least one byte consumed.
pub get_line-IsLine :
    (b : ℕ) (input : Bytes) (buf : Buf) (size : ℕ)
    → b ≢ b'\n'
    → 2 ≤ size
    → size ≤ length buf
    → (g : Got) × (get_line (b ∷ input) buf size ≡ done g) × IsLine (b ∷ input) buf size g
unfolding get_line read_loop
get_line-IsLine b input buf size ne h k =
    let (buf', s, l) = store_in buf 0 b (omega arith) in
    let (r, e, p) = read_loop-Looped input buf' size (0 + 1) b (omega arith) (omega arith) in
    let first = p.below 0 (omega arith) ∙ load-store_self buf 0 b s in
    let same = p.same_length in
    let (g, t, (q, m, z, n, f)) =
      strip_at-Stripped r.buf r.rest r.count b (omega (arith, p.from)) (omega (arith, p.bound))
        first ne in
    (
      g,
      rw (if_first, s, e) t,
      record {
        positive = q;
        fits = omega (arith, p.bound);
        terminated = z;
        same_length = n ∙ same ∙ l;
        consumes = omega (arith, p.bytes, p.from, ap length f);
      },
    )
  where
    if_first : (ltb 0 (size - 1) && not (0 == b'\n')) ≡ true
    if_first = ground arith

-- the peer sends nothing more, or a newline
abbrev pub StartsBare : Bytes → Type 0
StartsBare [] = Unit {0}
StartsBare (b ∷ input) = b ≡ b'\n'

StartsBare-fault :
    (input : Bytes) (buf : Buf) (size : ℕ)
    → 2 ≤ size
    → size ≤ length buf
    → StartsBare input
    → get_line input buf size ≡ fault
unfolding get_line read_loop strip_at
StartsBare-fault [] buf size h k s = refl
StartsBare-fault (b ∷ input) buf size h k s =
    let (buf', w, l) = store_in buf 0 b (omega arith) in
    let test : (ltb 0 (size - 1) && not (0 == b'\n')) ≡ true = ground arith in
    let stop = read_loop-newline input buf' size (0 + 1) b s in
    let lf : (b == b'\n') ≡ true = ground arith in
    rw (test, w, stop, load-store_self buf 0 b w, lf) refl

-- get_line leaves its buffer's bounds (it reads in front of the array) exactly if the peer's stream
-- has ended or the next byte is a newline.
pub get_line-fault_iff :
    (input : Bytes) (buf : Buf) (size : ℕ)
    → 2 ≤ size
    → size ≤ length buf
    → (get_line input buf size ≡ fault) ↔ StartsBare input
get_line-fault_iff input buf size h k = (to input, StartsBare-fault input buf size h k)
  where
    to : (s : Bytes) → get_line s buf size ≡ fault → StartsBare s
    to [] e = tt
    to (b ∷ s) e = elim (ℕ_discrete b b'\n') [
      | yes p ↦ p
      | no p ↦ let (g, d, _) = get_line-IsLine b s buf size p h k in cc
    ]

-- Whatever there is to read, `get_line` reads out of bounds or keeps its promise.
pub get_line-cases :
    (input : Bytes) (buf : Buf) (size : ℕ)
    → 2 ≤ size
    → size ≤ length buf
    → (get_line input buf size ≡ fault)
      ⊎ ((g : Got) × (get_line input buf size ≡ done g) × IsLine input buf size g)
get_line-cases [] buf size h k = inl (StartsBare-fault [] buf size h k tt)
get_line-cases (b ∷ input) buf size h k = elim (ℕ_discrete b b'\n') [
  | yes p ↦ inl (StartsBare-fault (b ∷ input) buf size h k p)
  | no p ↦ inr (get_line-IsLine b input buf size p h k)
]

-- Whatever `get_line` returns is a line.
pub get_line-done :
    (input : Bytes) (buf : Buf) (size : ℕ) {g : Got}
    → 2 ≤ size
    → size ≤ length buf
    → get_line input buf size ≡ done g
    → IsLine input buf size g
get_line-done input buf size {g} h k e = elim (get_line-cases input buf size h k) [
  | inl bad ↦ cc
  | inr (g', e', p) ↦ let same : g' ≡ g = cc in subst (IsLine input buf size) same p
]

pub get_line-ne-timeout :
    (input : Bytes) (buf : Buf) (size : ℕ)
    → 2 ≤ size
    → size ≤ length buf
    → get_line input buf size ≢ timeout
get_line-ne-timeout input buf size h k e = elim (get_line-cases input buf size h k) [
  | inl bad ↦ cc
  | inr (g', e', p) ↦ cc
]

-- ===== src/Httpd/File/Send.antt =====
-- What `cat` sends of a file.
use tiny_http.Prelude.{
  ℕ, zero, suc, ◌+◌, ◌<◌, ◌≡◌, ◌≢◌, inl, inr, refl, sym, ap, ◌∙◌, subst, true, false, [], ◌∷◌, ◌++◌,
  append_assoc, append-nil, Bytes, length, length-append, done, arith, Bool-cases, ◌==◌,
}
use tiny_http.Libc.{c_string}
use tiny_http.Libc.Laws.{Lacks}
use tiny_http.Httpd.Types.{Sock, send}
use tiny_http.Httpd.File.{Chunk, fgets, cat_loop, cat}

-- every line has its newline
abbrev pub IsComplete : Bytes → Type 0
IsComplete [] = Unit {0}
IsComplete (b ∷ []) = b ≡ b'\n'
IsComplete (b ∷ c ∷ cs) = IsComplete (c ∷ cs)

IsComplete-tail : (b : ℕ) (bs : Bytes) → IsComplete (b ∷ bs) → IsComplete bs
IsComplete-tail b [] h = tt
IsComplete-tail b (c ∷ cs) h = h

-- `fgets` takes the first `chunk` of the complete lines `full`, with `tail` behind them.
record Takes (room : ℕ) (full tail : Bytes) : Type 0 where
  chunk : Bytes
  left : Bytes
  splits : full ≡ chunk ++ left
  non_empty : 0 < length chunk
  complete : IsComplete left
  reads : fgets room (full ++ tail) ≡ record { text = chunk; rest = left ++ tail; eof = false }

Takes-one :
    (room b : ℕ) (full tail : Bytes)
    → IsComplete full
    → fgets (suc room) ((b ∷ full) ++ tail)
      ≡ record { text = b ∷ []; rest = full ++ tail; eof = false }
    → Takes (suc room) (b ∷ full) tail
Takes-one room b full tail c e = record {
  chunk = b ∷ [];
  left = full;
  splits = refl;
  non_empty = omega arith;
  complete = c;
  reads = e;
}

fgets-Takes :
    (room : ℕ) (full tail : Bytes) → full ≢ [] → IsComplete full → Takes (suc room) full tail
unfolding fgets
fgets-Takes room [] tail n c = absurd (n refl)
fgets-Takes zero (b ∷ full) tail n c =
    Takes-one zero b full tail (IsComplete-tail b full c) (ground arith)
fgets-Takes (suc room) (b ∷ []) tail n c = Takes-one (suc room) b [] tail tt (ground arith)
fgets-Takes (suc room) (b ∷ d ∷ full) tail n c =
    let t = fgets-Takes room (d ∷ full) tail (λ e. cc) c in
    elim (Bool-cases (b == b'\n')) [
      | inl lf ↦ Takes-one (suc room) b (d ∷ full) tail c (rw lf refl)
      | inr other ↦ record {
        chunk = b ∷ t.chunk;
        left = t.left;
        splits = ap (◌∷◌ b) t.splits;
        non_empty = omega arith;
        complete = t.complete;
        reads = rw other (ap (λ (r : Chunk). record r { text = b ∷ r.text }) t.reads);
      }
    ]

fgets-eof :
    (room : ℕ) (tail : Bytes) → Lacks b'\n' tail → length tail < room → (fgets room tail).eof ≡ true
unfolding fgets
fgets-eof zero tail l h = absurd (omega arith)
fgets-eof (suc room) [] l h = refl
fgets-eof (suc room) (b ∷ tail) l h = ground (arith, fgets-eof room tail l.1 (omega arith))

pub c_string-Lacks : (s : Bytes) → Lacks 0 s → c_string s ≡ s
unfolding c_string
c_string-Lacks [] h = refl
c_string-Lacks (b ∷ s) h = ground (arith, c_string-Lacks s h.1)

Lacks-split : (c : ℕ) (xs ys : Bytes) → Lacks c (xs ++ ys) → Lacks c xs × Lacks c ys
Lacks-split c [] ys h = (tt, h)
Lacks-split c (x ∷ xs) ys h = let r = Lacks-split c xs ys h.1 in ((h.0, r.0), r.1)

send-nil : (s : Sock) → done s ≡ done (send s [])
send-nil s = ap (λ (o : Bytes). done (record s { output = o })) (sym (append-nil s.output))

send-send : (s : Sock) (xs ys : Bytes) → done (send (send s xs) ys) ≡ done (send s (xs ++ ys))
send-send s xs ys = ap (λ (o : Bytes). done (record s { output = o })) (append_assoc s.output xs ys)

cat_loop-lines :
    (fuel : ℕ) (s : Sock) (full tail : Bytes)
    → IsComplete full
    → Lacks 0 full
    → Lacks b'\n' tail
    → length tail < 1023
    → length full < fuel
    → cat_loop fuel s (full ++ tail) ≡ done (send s full)
unfolding cat_loop
cat_loop-lines zero s full tail c z l h f = absurd (omega arith)
cat_loop-lines (suc fuel) s [] tail c z l h f = rw (fgets-eof 1023 tail l h) (send-nil s)
cat_loop-lines (suc fuel) s (b ∷ full) tail c z l h f =
    let t = fgets-Takes 1022 (b ∷ full) tail (λ e. cc) c in
    let zs = Lacks-split 0 t.chunk t.left (subst (Lacks 0) t.splits z) in
    rw (t.reads, c_string-Lacks t.chunk zs.0)
      (cat_loop-lines fuel (send s t.chunk) t.left tail t.complete zs.1 l h
          (omega (arith, ap length t.splits, length-append t.chunk t.left, t.non_empty))
        ∙ send-send s t.chunk t.left
        ∙ ap (λ (z : Bytes). done (send s z)) (sym t.splits))

-- cat sends all complete lines of a NUL-free file in order; a last line without a newline that is
-- shorter than 1023 bytes is not sent.
pub cat_lines :
    (s : Sock) (full tail : Bytes)
    → IsComplete full
    → Lacks 0 full
    → Lacks b'\n' tail
    → length tail < 1023
    → cat s (full ++ tail) ≡ done (send s full)
unfolding cat
cat_lines s full tail c z l h =
    cat_loop-lines (length (full ++ tail) + 1) s full tail c z l h
      (omega (arith, length-append full tail))

fgets-length :
    (room : ℕ) (file : Bytes)
    → (fgets (suc room) file).eof ≡ false
    → length (fgets (suc room) file).rest < length file
unfolding fgets
fgets-length room [] e = cc
fgets-length zero (b ∷ file) e = ground arith
fgets-length (suc room) (b ∷ file) e = ground (arith, fgets-length room file)

cat_loop_total :
    (fuel : ℕ) (s : Sock) (file : Bytes)
    → length file < fuel
    → (out : Bytes) × (cat_loop fuel s file ≡ done (send s out))
unfolding cat_loop
cat_loop_total zero s file h = absurd (omega arith)
cat_loop_total (suc fuel) s file h = elim (Bool-cases (fgets 1023 file).eof) [
  | inl end ↦ ([], rw end (send-nil s))
  | inr more ↦
      let chunk = fgets 1023 file in
      let (out, e) =
        cat_loop_total fuel (send s (c_string chunk.text)) chunk.rest
          (omega (arith, fgets-length 1022 file more)) in
      (c_string chunk.text ++ out, rw more (e ∙ send-send s (c_string chunk.text) out))
]

-- cat ends on every file, and only adds to what was sent.
pub cat_total : (s : Sock) (file : Bytes) → (out : Bytes) × (cat s file ≡ done (send s out))
unfolding cat
cat_total s file = cat_loop_total (length file + 1) s file (omega arith)

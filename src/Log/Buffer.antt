-- ===== src/Log/Buffer.antt =====
-- What `add_logbuf` copies.
use tiny_http.Prelude.{
  ℕ, zero, suc, ◌+◌, ◌<◌, ◌≡◌, ◌≢◌, ◌⊎◌, inl, inr, refl, sym, ap, ◌∙◌, [], ◌∷◌, done, >>=-eq-done,
  arith, ◌==◌, if◌then◌else◌,
}
use tiny_http.Libc.{Buf, load, store}
use tiny_http.Libc.Laws.{load-store_ne}
use tiny_http.Log.{add_logbuf}

-- Two buffers that hold the same from `i` on.
abbrev Agree : ℕ → Buf → Buf → Type 0
Agree i b c = (j : ℕ) → i < j → load b j ≡ load c j

Agree-store :
    (i x y : ℕ) (b c : Buf) {b' c' : Buf}
    → Agree i b c
    → store b i x ≡ done b'
    → store c i y ≡ done c'
    → Agree i b' c'
Agree-store i x y b c a s t = λ j h.
    load-store_ne b i j x s (omega (arith, h))
    ∙ a j h
    ∙ sym (load-store_ne c i j y t (omega (arith, h)))

-- What a run of `add_logbuf` that returns has done with its first byte.
abbrev Copied : Buf → Buf → ℕ → (ℕ × Buf) → Buf → ℕ → Type 0
Copied b p i r b' n = ((n ≡ 0) × (r ≡ (i + 1, b'))) ⊎ ((n ≢ 0) × (add_logbuf b' p (i + 1) ≡ done r))

branch-Copied :
    (b p b' : Buf) (i n : ℕ) {r : ℕ × Buf}
    → (if n == 0 then done (i + 1, b') else add_logbuf b' p (i + 1)) ≡ done r
    → Copied b p i r b' n
branch-Copied b p b' i zero e = inl (refl, cc)
branch-Copied b p b' i (suc n) {r} e = inr (omega arith, ground (arith, e))

add_logbuf_inversion :
    (b p : Buf) (x i : ℕ) {r : ℕ × Buf}
    → add_logbuf b (x ∷ p) i ≡ done r
    → (b' : Buf) × (n : ℕ) × (store b i x ≡ done b')
      × (load b' (i + 1) ≡ done n)
      × Copied b p i r b' n
unfolding add_logbuf
add_logbuf_inversion b p x i {r} e =
    let (b', s, f) = >>=-eq-done (store b i x) _ e in
    let (n, l, g) = >>=-eq-done (load b' (i + 1)) _ f in (b', n, s, l, branch-Copied b p b' i n g)

done_injective : {n m : ℕ} → done n ≡ done m → n ≡ m
done_injective e = cc

add_logbuf-Agree :
    (p q b c : Buf) (i : ℕ) (r s : ℕ × Buf)
    → Agree i b c
    → add_logbuf b p i ≡ done r
    → add_logbuf c q i ≡ done s
    → r.0 ≡ s.0
unfolding add_logbuf
add_logbuf-Agree [] q b c i r s a e f = cc
add_logbuf-Agree (x ∷ p) [] b c i r s a e f = cc
add_logbuf-Agree (x ∷ p) (y ∷ q) b c i r s a e f =
    let (b', n, st, l, k) = add_logbuf_inversion b p x i e in
    let (c', m, st', l', k') = add_logbuf_inversion c q y i f in
    let a' = Agree-store i x y b c a st st' in
    let same : n ≡ m = done_injective (sym l ∙ a' (i + 1) (omega arith) ∙ l') in
    elim k [
      | inl (z, u) ↦ elim k' [
        | inl (_, v) ↦ ap (λ t. t.0) u ∙ sym (ap (λ t. t.0) v)
        | inr (w, _) ↦ absurd (w (sym same ∙ z))
      ]
      | inr (w, u) ↦ elim k' [
        | inl (z, _) ↦ absurd (w (same ∙ z))
        | inr (_, v) ↦ add_logbuf-Agree p q b' c' (i + 1) r s (λ j h. a' j (omega (arith, h))) u v
      ]
    ]

-- The number of bytes that add_logbuf copies does not depend on the string: for two strings that it
-- both adds to the same buffer at the same index, the new index is the same.
pub add_logbuf_count :
    (buf p q : Buf) (index : ℕ) (r s : ℕ × Buf)
    → add_logbuf buf p index ≡ done r
    → add_logbuf buf q index ≡ done s
    → r.0 ≡ s.0
add_logbuf_count buf p q index r s e f = add_logbuf-Agree p q buf buf index r s (λ j h. refl) e f

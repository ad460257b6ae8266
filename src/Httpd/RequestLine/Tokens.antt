-- ===== src/Httpd/RequestLine/Tokens.antt =====
-- The loops over the request line's tokens, on a list of bytes that is split where they stop.
use tiny_http.Prelude.{
  ℕ, zero, suc, ◌≤◌, ◌≡◌, ◌≢◌, ◌⊎◌, inl, inr, refl, ap, true, false, [], ◌∷◌, ◌++◌, Bytes, length,
  done, timeout, >>=-eq-done, arith, Bool-cases,
}
use tiny_http.Libc.{Buf, c_string, is_space}
use tiny_http.Httpd.RequestLine.{Token, copy_method, skip_spaces, copy_url}

-- no whitespace and no NUL
abbrev pub IsWord : Bytes → Type 0
IsWord [] = Unit {0}
IsWord (b ∷ bs) = (is_space b ≡ false) × (b ≢ 0) × IsWord bs

pub c_string-IsWord : (s : Bytes) → IsWord s → c_string s ≡ s
unfolding c_string
c_string-IsWord [] h = refl
c_string-IsWord (b ∷ s) h = ground (arith, c_string-IsWord s h.2)

pub copy_method-IsWord :
    (room : ℕ) (t : Bytes) (c : ℕ) (rest : Bytes)
    → IsWord t
    → is_space c ≡ true
    → length t ≤ room
    → copy_method room (t ++ c ∷ rest) ≡ done (record { text = t; after = c ∷ rest })
unfolding copy_method
copy_method-IsWord zero [] c rest w s h = refl
copy_method-IsWord (suc room) [] c rest w s h = rw s refl
copy_method-IsWord zero (b ∷ t) c rest w s h = absurd (omega arith)
copy_method-IsWord (suc room) (b ∷ t) c rest w s h =
    rw (w.0, copy_method-IsWord room t c rest w.2 s (omega arith)) refl

pub copy_url-IsWord :
    (room left : ℕ) (t : Bytes) (c : ℕ) (rest : Bytes)
    → IsWord t
    → is_space c ≡ true
    → length t ≤ room
    → length t ≤ left
    → copy_url room left (t ++ c ∷ rest) ≡ done (record { text = t; after = c ∷ rest })
unfolding copy_url
copy_url-IsWord zero left [] c rest w s h k = refl
copy_url-IsWord (suc room) zero [] c rest w s h k = refl
copy_url-IsWord (suc room) (suc left) [] c rest w s h k = rw s refl
copy_url-IsWord zero left (b ∷ t) c rest w s h k = absurd (omega arith)
copy_url-IsWord (suc room) zero (b ∷ t) c rest w s h k = absurd (omega arith)
copy_url-IsWord (suc room) (suc left) (b ∷ t) c rest w s h k =
    rw (w.0, copy_url-IsWord room left t c rest w.2 s (omega arith) (omega arith)) refl

pub skip_spaces-one :
    (t : Bytes) (c : ℕ) (rest : Bytes)
    → IsWord t
    → t ≢ []
    → skip_spaces (b' ' ∷ (t ++ c ∷ rest)) ≡ done (t ++ c ∷ rest)
unfolding skip_spaces is_space
skip_spaces-one [] c rest w n = absurd (n refl)
skip_spaces-one (b ∷ t) c rest w n = ground (arith, w.0)

-- Somewhere in the list a newline and a NUL follow one another, with `after` bytes behind them.
pub data HasLine (after : ℕ) : Bytes → Type 0 where
  ends : {rest : Bytes} → length rest ≡ after → HasLine after (b'\n' ∷ 0 ∷ rest)
  more : {b : ℕ} {bs : Bytes} → HasLine after bs → HasLine after (b ∷ bs)

pub HasLine-append : (body rest : Bytes) → HasLine (length rest) (body ++ b'\n' ∷ 0 ∷ rest)
HasLine-append [] rest = ends refl
HasLine-append (b ∷ body) rest = more (HasLine-append body rest)

module _ {n : ℕ} where
  -- the copy of a method stops before the end of the line is passed
  pub copy_method_total :
      (room : ℕ) {bs : Bytes}
      → HasLine n bs
      → (t : Token) × (copy_method room bs ≡ done t) × HasLine n t.after
  unfolding copy_method is_space
  copy_method_total zero (ends {rest} e) =
      (record { text = []; after = b'\n' ∷ 0 ∷ rest }, refl, ends e)
  copy_method_total zero (more {b} {bs} h) = (record { text = []; after = b ∷ bs }, refl, more h)
  copy_method_total (suc room) (ends {rest} e) =
      (record { text = []; after = b'\n' ∷ 0 ∷ rest }, refl, ends e)
  copy_method_total (suc room) (more {b} {bs} h) = elim (Bool-cases (is_space b)) [
    | inl space ↦ (record { text = []; after = b ∷ bs }, rw space refl, more h)
    | inr other ↦
        let (t, e, k) = copy_method_total room h in
        (record t { text = b ∷ t.text }, rw (other, e) refl, k)
  ]

  -- white space is skipped up to the NUL at most
  pub skip_spaces_total :
      {bs : Bytes}
      → HasLine n bs
      → (r : Buf) × (skip_spaces bs ≡ done r) × (HasLine n r ⊎ (length r ≡ suc n))
  unfolding skip_spaces is_space
  skip_spaces_total (ends {rest} e) = (0 ∷ rest, refl, inr (ap suc e))
  skip_spaces_total (more {b} {bs} h) = elim (Bool-cases (is_space b)) [
    | inl space ↦ let (r, e, k) = skip_spaces_total h in (r, rw space e, k)
    | inr other ↦ (b ∷ bs, rw other refl, inl (more h))
  ]

  pub copy_url_total :
      (room left : ℕ) {bs : Bytes} → HasLine n bs → (t : Token) × (copy_url room left bs ≡ done t)
  unfolding copy_url is_space
  copy_url_total zero left (ends {rest} e) = (record { text = []; after = b'\n' ∷ 0 ∷ rest }, refl)
  copy_url_total zero left (more {b} {bs} h) = (record { text = []; after = b ∷ bs }, refl)
  copy_url_total (suc room) zero (ends {rest} e) =
      (record { text = []; after = b'\n' ∷ 0 ∷ rest }, refl)
  copy_url_total (suc room) zero (more {b} {bs} h) = (record { text = []; after = b ∷ bs }, refl)
  copy_url_total (suc room) (suc left) (ends {rest} e) =
      (record { text = []; after = b'\n' ∷ 0 ∷ rest }, refl)
  copy_url_total (suc room) (suc left) (more {b} {bs} h) = elim (Bool-cases (is_space b)) [
    | inl space ↦ (record { text = []; after = b ∷ bs }, rw space refl)
    | inr other ↦
        let (t, e) = copy_url_total room left h in
        (record t { text = b ∷ t.text }, rw (other, e) refl)
  ]

pub copy_url_none :
    (room : ℕ) (bs : Bytes) {n : ℕ}
    → length bs ≡ suc n
    → (t : Token) × (copy_url room 0 bs ≡ done t)
unfolding copy_url
copy_url_none room [] h = absurd (omega arith)
copy_url_none zero (b ∷ bs) h = (record { text = []; after = b ∷ bs }, refl)
copy_url_none (suc room) (b ∷ bs) h = (record { text = []; after = b ∷ bs }, refl)

-- A token is no longer than the room for it.
pub copy_url-length :
    (room left : ℕ) (bs : Bytes) {t : Token} → copy_url room left bs ≡ done t → length t.text ≤ room
unfolding copy_url
copy_url-length room left [] e = cc
copy_url-length zero left (b ∷ bs) e = ground arith
copy_url-length (suc room) zero (b ∷ bs) e = ground arith
copy_url-length (suc room) (suc left) (b ∷ bs) {t} e = elim (Bool-cases (is_space b)) [
  | inl space ↦ ground arith
  | inr other ↦
      let e' = rw other at e in
      let (u, d, f) =
        >>=-eq-done (copy_url room left bs) (λ u. done (record u { text = b ∷ u.text })) e' in
      ground (arith, copy_url-length room left bs d)
]

pub copy_method-ne-timeout : (room : ℕ) (b : Buf) → copy_method room b ≢ timeout
unfolding copy_method
copy_method-ne-timeout room [] = ground arith
copy_method-ne-timeout zero (c ∷ cs) = ground arith
copy_method-ne-timeout (suc room) (c ∷ cs) = ground (arith, copy_method-ne-timeout room cs)

pub skip_spaces-ne-timeout : (b : Buf) → skip_spaces b ≢ timeout
unfolding skip_spaces
skip_spaces-ne-timeout [] = ground arith
skip_spaces-ne-timeout (c ∷ cs) = ground (arith, skip_spaces-ne-timeout cs)

pub copy_url-ne-timeout : (room left : ℕ) (b : Buf) → copy_url room left b ≢ timeout
unfolding copy_url
copy_url-ne-timeout room left [] = ground arith
copy_url-ne-timeout zero left (c ∷ cs) = ground arith
copy_url-ne-timeout (suc room) zero (c ∷ cs) = ground arith
copy_url-ne-timeout (suc room) (suc left) (c ∷ cs) =
    ground (arith, copy_url-ne-timeout room left cs)

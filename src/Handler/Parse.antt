-- ===== src/Handler/Parse.antt =====
-- What `get_url_method` finds in a request, and when it leaves its arrays.
use tiny_http.Prelude.{
  ℕ, zero, suc, ◌+◌, ◌-◌, ◌<◌, ◌≤◌, ◌≡◌, ◌≢◌, refl, Bool, false, [], ◌∷◌, ◌++◌, Bytes, length,
  length-append, done, fault, >>=-eq-done, arith, ltb, codes,
}
use tiny_http.Libc.{Buf}
use tiny_http.Handler.{Word, copy_word, end_word, skip_blanks, strcasestr, Parsed, get_url_method}

-- no blank
abbrev pub NoBlank : Bytes → Type 0
NoBlank [] = Unit {0}
NoBlank (b ∷ bs) = (b ≢ b' ') × NoBlank bs

copy_word-NoBlank :
    (room left : ℕ) (t rest : Bytes)
    → NoBlank t
    → length t ≤ room
    → length t ≤ left
    → copy_word room left (t ++ b' ' ∷ rest) ≡ done (record { text = t; after = b' ' ∷ rest })
unfolding copy_word
copy_word-NoBlank zero left [] rest n h k = refl
copy_word-NoBlank (suc room) zero [] rest n h k = refl
copy_word-NoBlank (suc room) (suc left) [] rest n h k = refl
copy_word-NoBlank zero left (b ∷ t) rest n h k = absurd (omega arith)
copy_word-NoBlank (suc room) zero (b ∷ t) rest n h k = absurd (omega arith)
copy_word-NoBlank (suc room) (suc left) (b ∷ t) rest n h k =
    ground (arith, copy_word-NoBlank room left t rest n.1 (omega arith) (omega arith))

-- A token that fills the room is cut there.
copy_word_full :
    (t : Bytes) (room left c : ℕ) (rest : Bytes)
    → NoBlank t
    → length t ≡ room
    → room ≤ left
    → copy_word room left (t ++ c ∷ rest) ≡ done (record { text = t; after = c ∷ rest })
unfolding copy_word
copy_word_full [] zero left c rest n e h = refl
copy_word_full [] (suc room) left c rest n e h = absurd (omega arith)
copy_word_full (b ∷ t) zero left c rest n e h = absurd (omega arith)
copy_word_full (b ∷ t) (suc room) zero c rest n e h = absurd (omega arith)
copy_word_full (b ∷ t) (suc room) (suc left) c rest n e h =
    ground (arith, copy_word_full t room left c rest n.1 (omega arith) (omega arith))

end_word-fits : (n : ℕ) (w : Word) → length w.text < n → end_word n w ≡ done w
unfolding end_word
end_word-fits n w h = ground arith

pub end_word-bound : (n : ℕ) (w : Word) {v : Word} → end_word n w ≡ done v → length v.text < n
unfolding end_word
end_word-bound n w e = ground arith

skip_blanks-one :
    (t rest : Bytes)
    → NoBlank t
    → t ≢ []
    → skip_blanks (b' ' ∷ (t ++ b' ' ∷ rest)) ≡ done (t ++ b' ' ∷ rest)
unfolding skip_blanks
skip_blanks-one [] rest n e = absurd (e refl)
skip_blanks-one (b ∷ t) rest n e = ground arith

-- A request line with one blank after the method and one behind the URL, whose parts fit their
-- arrays, is taken apart at its blanks, and the connection type is what the search for keep-alive
-- in the buffer gives.
pub get_url_method_line :
    (method url rest : Bytes) (size : ℕ) {alive : Bool}
    → NoBlank method
    → NoBlank url
    → url ≢ []
    → length method < 32
    → length url < 128
    → length method + 1 + length url ≤ size
    → strcasestr (codes "keep-alive") (method ++ b' ' ∷ (url ++ b' ' ∷ rest)) ≡ done alive
    → get_url_method (method ++ b' ' ∷ (url ++ b' ' ∷ rest)) size
      ≡ done (record { method = method; url = url; alive = alive })
unfolding get_url_method
get_url_method_line method url rest size nm nu ne hm hu hs a =
    let left : length url
        ≤ size - (length (method ++ b' ' ∷ (url ++ b' ' ∷ rest)) - length (url ++ b' ' ∷ rest)) =
      omega (arith, length-append method (b' ' ∷ (url ++ b' ' ∷ rest))) in
    rw
      (
        copy_word-NoBlank 32 size method (url ++ b' ' ∷ rest) nm (omega arith) (omega arith),
        end_word-fits 32 (record { text = method; after = b' ' ∷ (url ++ b' ' ∷ rest) }) hm,
        skip_blanks-one url rest nu ne,
        copy_word-NoBlank 128 _ url rest nu (omega arith) left,
        end_word-fits 128 (record { text = url; after = b' ' ∷ rest }) hu,
        a,
      )
      refl

-- If the received bytes begin with 32 bytes without a blank, and a byte follows in the buffer, the
-- terminator of the method falls behind its array of 32 bytes.
pub get_url_method_overflow :
    (token rest : Bytes) (c size : ℕ)
    → NoBlank token
    → length token ≡ 32
    → 32 ≤ size
    → get_url_method (token ++ c ∷ rest) size ≡ fault
unfolding get_url_method end_word
get_url_method_overflow token rest c size n h k =
    let full : ltb (length token) 32 ≡ false = ground arith in
    rw (copy_word_full token 32 size c rest n h k, full) refl

-- Whatever the buffer holds and whatever size is given, the strings that get_url_method returns fit
-- the arrays of http_request_t.
pub get_url_method_bounds :
    (header : Buf) (size : ℕ) {p : Parsed}
    → get_url_method header size ≡ done p
    → (length p.method < 32) × (length p.url < 128)
unfolding get_url_method
get_url_method_bounds header size {p} e =
    let (m, em, f) = >>=-eq-done (copy_word 32 size header) _ e in
    let (v, ev, g) = >>=-eq-done (end_word 32 m) _ f in
    let (at_url, ea, h) = >>=-eq-done (skip_blanks v.after) _ g in
    let (u, eu, i) =
      >>=-eq-done (copy_word 128 (size - (length header - length at_url)) at_url) _ h in
    let (w, ew, j) = >>=-eq-done (end_word 128 u) _ i in
    let (a, ek, k) = >>=-eq-done (strcasestr (codes "keep-alive") header) _ j in
    ground (arith, end_word-bound 32 m ev, end_word-bound 128 u ew)

-- ===== src/Config/Lines.antt =====
-- A configuration file with a setting on each line.
use tiny_http.Prelude.{
  ℕ, zero, suc, ◌+◌, ◌<◌, ◌≡◌, ◌≢◌, ◌⊎◌, inl, inr, refl, ap, ◌∙◌, true, false, List, [], ◌∷◌, ◌++◌,
  append_assoc, Bytes, length, length-append, Run, some, done, ◌>>=◌, arith, ◌==◌,
}
use tiny_http.Prelude.{fun_ext}
use tiny_http.Libc.{is_space}
use tiny_http.Libc.Laws.{Lacks}
use tiny_http.Httpd.File.{fgets}
use tiny_http.Httpd.File.Send.{c_string-Lacks}
use tiny_http.Config.{
  Conf, Setting, skip_space, split_word, scan, set, read_conf, init_conf, first_word, second_word,
}

-- no blank and no NUL
abbrev pub IsPlain : Bytes → Type 0
IsPlain [] = Unit {0}
IsPlain (c ∷ cs) = (is_space c ≡ false) × (c ≢ 0) × IsPlain cs

-- The line of a setting, without its newline.
abbrev pub body : Setting → Bytes
body s = s.key ++ b' ' ∷ s.value

abbrev pub file_of : List Setting → Bytes
file_of [] = []
file_of (s ∷ rest) = body s ++ b'\n' ∷ file_of rest

-- A key and a value that are words, on a line that fits `buf[128]`.
abbrev pub IsSetting : Setting → Type 0
IsSetting s =
    (0 < length s.key)
    × (0 < length s.value)
    × IsPlain s.key
    × IsPlain s.value
    × (length (body s) < 126)

abbrev pub AreSettings : List Setting → Type 0
AreSettings [] = Unit {0}
AreSettings (s ∷ rest) = IsSetting s × AreSettings rest

-- all settings in order
abbrev pub set_all : List Setting → Conf → Run Conf
set_all [] conf = done conf
set_all (s ∷ rest) conf = do conf' ← set conf s; set_all rest conf'

fgets_line :
    (room : ℕ) (line rest : Bytes)
    → Lacks b'\n' line
    → length line < room
    → fgets room (line ++ b'\n' ∷ rest)
      ≡ record { text = line ++ b'\n' ∷ []; rest = rest; eof = false }
unfolding fgets
fgets_line zero line rest l h = absurd (omega arith)
fgets_line (suc room) [] rest l h = ground arith
fgets_line (suc room) (b ∷ line) rest l h =
    let other : (b == b'\n') ≡ false = ground (arith, l.0) in
    rw (other, fgets_line room line rest l.1 (omega arith)) refl

split_word-IsPlain :
    (w rest : Bytes) (c : ℕ)
    → IsPlain w
    → is_space c ≡ true
    → split_word (w ++ c ∷ rest) ≡ (w, c ∷ rest)
unfolding split_word
split_word-IsPlain [] rest c p h = rw h refl
split_word-IsPlain (x ∷ w) rest c p h = rw (p.0, split_word-IsPlain w rest c p.2 h) refl

skip_space-IsPlain : (x : ℕ) (w : Bytes) → is_space x ≡ false → skip_space (x ∷ w) ≡ x ∷ w
unfolding skip_space
skip_space-IsPlain x w h = rw h refl

space : is_space b' ' ≡ true
unfolding is_space
space = refl

newline : is_space b'\n' ≡ true
unfolding is_space
newline = refl

skip_blank : (w : Bytes) → skip_space (b' ' ∷ w) ≡ skip_space w
unfolding skip_space is_space
skip_blank w = refl

scan_words :
    (old : Setting) (x y : ℕ) (k v : Bytes)
    → IsPlain (x ∷ k)
    → IsPlain (y ∷ v)
    → scan old (x ∷ (k ++ (b' ' ∷ (y ∷ (v ++ b'\n' ∷ []))))) ≡ record { key = x ∷ k; value = y ∷ v }
unfolding scan first_word second_word
scan_words old x y k v p q =
    let first : split_word (x ∷ (k ++ (b' ' ∷ (y ∷ (v ++ b'\n' ∷ [])))))
        ≡ (x ∷ k, b' ' ∷ (y ∷ (v ++ b'\n' ∷ []))) =
      split_word-IsPlain (x ∷ k) ((y ∷ (v ++ b'\n' ∷ []))) b' ' p space in
    let second : split_word ((y ∷ (v ++ b'\n' ∷ []))) ≡ (y ∷ v, b'\n' ∷ []) =
      split_word-IsPlain (y ∷ v) [] b'\n' q newline in
    let skipped : skip_space (b' ' ∷ (y ∷ (v ++ b'\n' ∷ []))) ≡ (y ∷ (v ++ b'\n' ∷ [])) =
      skip_blank ((y ∷ (v ++ b'\n' ∷ []))) ∙ skip_space-IsPlain y (v ++ b'\n' ∷ []) q.0 in
    ap (λ t. first_word old (split_word t))
      (skip_space-IsPlain x (k ++ b' ' ∷ (y ∷ (v ++ b'\n' ∷ []))) p.0)
    ∙ ap (first_word old) first
    ∙ ap (λ t. second_word old (x ∷ k) (split_word t).0) skipped
    ∙ ap (λ (t : Bytes × Bytes). second_word old (x ∷ k) t.0) second

scan_texts :
    (old : Setting) (k v : Bytes)
    → 0 < length k
    → 0 < length v
    → IsPlain k
    → IsPlain v
    → scan old ((k ++ b' ' ∷ v) ++ b'\n' ∷ []) ≡ record { key = k; value = v }
scan_texts old [] v i j p q = absurd (omega arith)
scan_texts old (x ∷ k) [] i j p q = absurd (omega arith)
scan_texts old (x ∷ k) (y ∷ v) i j p q =
    ap (scan old) (append_assoc (x ∷ k) (b' ' ∷ y ∷ v) (b'\n' ∷ [])) ∙ scan_words old x y k v p q

scan_line : (old s : Setting) → IsSetting s → scan old (body s ++ b'\n' ∷ []) ≡ s
scan_line old s h = scan_texts old s.key s.value h.0 h.1 h.2 h.3

IsPlain-Lacks : (c : ℕ) (w : Bytes) → IsPlain w → (is_space c ≡ true) ⊎ (c ≡ 0) → Lacks c w
IsPlain-Lacks c [] p h = tt
IsPlain-Lacks c (x ∷ w) p h =
    let other : is_space x ≡ false = p.0 in
    let not_nul : x ≢ 0 = p.1 in
    (λ e. elim h [ inl z ↦ cc | inr z ↦ not_nul (e ∙ z) ], IsPlain-Lacks c w p.2 h)

Lacks-append : (c : ℕ) (v w : Bytes) → Lacks c v → Lacks c w → Lacks c (v ++ w)
Lacks-append c [] w p q = q
Lacks-append c (x ∷ v) w p q = (p.0, Lacks-append c v w p.1 q)

read_conf-line :
    (fuel : ℕ) (conf : Conf) (old s : Setting) (rest : Bytes)
    → IsSetting s
    → read_conf (suc fuel) conf old (body s ++ b'\n' ∷ rest)
      ≡ (set conf s >>= λ conf'. read_conf fuel conf' s rest)
unfolding read_conf
read_conf-line fuel conf old s rest h =
    let lf : Lacks b'\n' (body s) =
      Lacks-append b'\n' s.key (b' ' ∷ s.value) (IsPlain-Lacks b'\n' s.key h.2 (inl newline))
        (omega arith, IsPlain-Lacks b'\n' s.value h.3 (inl newline)) in
    let nul : Lacks 0 (body s) =
      Lacks-append 0 s.key (b' ' ∷ s.value) (IsPlain-Lacks 0 s.key h.2 (inr refl))
        (omega arith, IsPlain-Lacks 0 s.value h.3 (inr refl)) in
    let some_text : (length (body s ++ b'\n' ∷ []) == 0) ≡ false =
      ground (arith, length-append (body s) (b'\n' ∷ [])) in
    rw
      (
        fgets_line 127 (body s) rest lf (omega (arith, h.4)),
        some_text,
        c_string-Lacks (body s ++ b'\n' ∷ [])
            (Lacks-append 0 (body s) (b'\n' ∷ []) nul (omega arith, tt)),
        scan_line old s h,
      )
      refl

read_conf-set_all :
    (fuel : ℕ) (conf : Conf) (old : Setting) (settings : List Setting)
    → AreSettings settings
    → length (file_of settings) < fuel
    → read_conf fuel conf old (file_of settings) ≡ set_all settings conf
unfolding read_conf fgets
read_conf-set_all zero conf old settings a h = absurd (omega arith)
read_conf-set_all (suc fuel) conf old [] a h = refl
read_conf-set_all (suc fuel) conf old (s ∷ rest) a h =
    read_conf-line fuel conf old s (file_of rest) a.0
    ∙ ap (λ f. set conf s >>= f)
        (fun_ext λ c.
          read_conf-set_all fuel c s rest a.1
            (omega (arith, length-append (body s) (b'\n' ∷ file_of rest))))

-- For a file of settings, each a word, a blank and a word on a line shorter than 127 bytes with its
-- newline, init_conf is the application of the settings in order.
pub init_conf_settings :
    (settings : List Setting) (conf : Conf)
    → AreSettings settings
    → init_conf (some (file_of settings)) conf ≡ set_all settings conf
unfolding init_conf
init_conf_settings settings conf a =
    read_conf-set_all (length (file_of settings) + 1) conf (record { key = []; value = [] })
      settings a (omega arith)

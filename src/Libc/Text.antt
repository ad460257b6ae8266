-- ===== src/Libc/Text.antt =====
-- Character classes, string comparison and suffix of the C library in the "C" locale.
use tiny_http.Prelude.{ℕ, Bool, true, false, [], ◌∷◌, Bytes, ◌==◌, leb, ◌&&◌, ◌||◌}

-- `isspace`: space, \t, \n, \v, \f, \r
unfoldable pub is_space : ℕ → Bool
is_space c = c == b' ' || leb 9 c && leb c 13

-- `strcmp(s, t) == 0` for strings
unfoldable pub same_string : Bytes → Bytes → Bool
same_string [] [] = true
same_string [] (b ∷ t) = false
same_string (a ∷ s) [] = false
same_string (a ∷ s) (b ∷ t) = elim (a == b) [ true ↦ same_string s t | false ↦ false ]

-- `s[strlen(s) - 1] == c`, false for the empty string
unfoldable pub ends_with : ℕ → Bytes → Bool
ends_with c [] = false
ends_with c (x ∷ []) = x == c
ends_with c (x ∷ y ∷ ys) = ends_with c (y ∷ ys)

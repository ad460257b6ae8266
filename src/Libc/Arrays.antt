-- ===== src/Libc/Arrays.antt =====
-- Character arrays. An access outside the array is undefined behaviour, a `fault`.
use tiny_http.Prelude.{
  ℕ, zero, suc, Bool, true, false, List, [], ◌∷◌, Bytes, Run, done, fault, ◌>>=◌, ◌==◌,
  if◌then◌else◌,
}

-- `char buf[n]`: its `n` bytes.
abbrev pub Buf : Type 0
Buf = List ℕ

-- buf[i]
unfoldable pub load : Buf → ℕ → Run ℕ
load [] i = fault
load (x ∷ xs) zero = done x
load (x ∷ xs) (suc i) = load xs i

-- buf[i] = v
unfoldable pub store : Buf → ℕ → ℕ → Run Buf
store [] i v = fault
store (x ∷ xs) zero v = done (v ∷ xs)
store (x ∷ xs) (suc i) v = do r ← store xs i v; done (x ∷ r)

-- `strcmp(s, buf) == 0` for a string `s` without its terminator: `strcmp` stops at the first
-- difference, and reads no further.
unfoldable pub str_eq : Bytes → Buf → Run Bool
str_eq s [] = fault
str_eq [] (b ∷ bs) = done (b == 0)
str_eq (c ∷ s) (b ∷ bs) = elim (c == b) [ true ↦ str_eq s bs | false ↦ done false ]

-- The string that the bytes before a terminator hold: all up to the first NUL.
unfoldable pub c_string : Bytes → Bytes
c_string [] = []
c_string (b ∷ bs) = if b == 0 then [] else b ∷ c_string bs

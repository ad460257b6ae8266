-- ===== src/Libc/Strings.antt =====
-- Functions of <string.h> and <strings.h> on the bytes from a pointer on. Reading on behind the last
-- byte is a fault; a function reads no byte behind the one that decides.
use tiny_http.Prelude.{
  ℕ, ◌+◌, ◌-◌, ◌%◌, ◌^◌, Bool, true, false, [], ◌∷◌, ◌++◌, Bytes, Run, Option, some, none, done,
  fault, ◌>>=◌, leb, ltb, ◌&&◌, ◌||◌, ◌==◌, if◌then◌else◌,
}
use tiny_http.Prelude.Int.{ℤ, pos, negsuc}
use tiny_http.Libc.Arrays.{Buf, store}
use tiny_http.Libc.Text.{is_space}
use tiny_http.Libc.Numbers.{digits}

-- the set " \t"
abbrev pub is_blank : ℕ → Bool
is_blank c = c == b' ' || c == b'\t'

abbrev pub next_index : Option ℕ → Option ℕ
next_index none = none
next_index (some i) = some (i + 1)

-- `strpbrk` and `strchr`: how far off the first byte of the set is; the set does not hold NUL
unfoldable pub find : (ℕ → Bool) → Buf → Run (Option ℕ)
find set [] = fault
find set (c ∷ cs) =
    let more = (do found ← find set cs; done (next_index found)) in
    if c == 0 then done none else if set c then done (some 0) else more

-- `strspn`: how many bytes of the set stand at the front
unfoldable pub strspn : (ℕ → Bool) → Buf → Run ℕ
strspn set [] = fault
strspn set (c ∷ cs) =
    let more = (do n ← strspn set cs; done (n + 1)) in
    if c == 0 then done 0 else if set c then more else done 0

-- the string that a pointer points to
unfoldable pub string : Buf → Run Bytes
string [] = fault
string (c ∷ cs) = let more = (do s ← string cs; done (c ∷ s)) in if c == 0 then done [] else more

abbrev pub to_lower : ℕ → ℕ
to_lower c = if leb b'A' c && leb c b'Z' then c + 32 else c

-- `strcasecmp(p, s) == 0`
unfoldable pub same_case : Bytes → Buf → Run Bool
same_case s [] = fault
same_case [] (c ∷ cs) = done (c == 0)
same_case (b ∷ s) (c ∷ cs) = elim (to_lower b == to_lower c) [
  | true ↦ same_case s cs
  | false ↦ done false
]

-- `strncasecmp(p, s, strlen(s)) == 0`
unfoldable pub starts_case : Bytes → Buf → Run Bool
starts_case [] cs = done true
starts_case (b ∷ s) [] = fault
starts_case (b ∷ s) (c ∷ cs) = elim (to_lower b == to_lower c) [
  | true ↦ starts_case s cs
  | false ↦ done false
]

-- `strrchr` of a string: what stands behind the last `c`, or `none` if there is no `c`
unfoldable pub behind_last : ℕ → Bytes → Option Bytes
behind_last c [] = none
behind_last c (b ∷ s) = elim (behind_last c s) [
  | some t ↦ some t
  | none ↦ if b == c then some s else none
]

-- the bytes `s` written from an index on
unfoldable pub store_all : Buf → ℕ → Bytes → Run Buf
store_all b i [] = done b
store_all b i (c ∷ s) = do b' ← store b i c; store_all b' (i + 1) s

-- `strcpy` of a string
unfoldable pub strcpy : Buf → ℕ → Bytes → Run Buf
strcpy b i s = store_all b i (s ++ 0 ∷ [])

-- `atol`; the result is undefined where a `long` cannot hold the number.
unfoldable pub long : Bool → ℕ → Run ℤ
long minus n =
    if ltb (2 ^ 63 - 1) n
    then fault
    else if minus && ltb 0 n
    then done (negsuc (n - 1))
    else done (pos n)

unfoldable pub long_sign : Buf → Run ℤ
unfolding digits long
long_sign [] = fault
long_sign (c ∷ cs) =
    if c == b'-'
    then (do n ← digits 0 cs; long true n)
    else if c == b'+'
    then (do n ← digits 0 cs; long false n)
    else (do n ← digits 0 (c ∷ cs); long false n)

unfoldable pub atol : Buf → Run ℤ
unfolding long_sign is_space
atol [] = fault
atol (c ∷ cs) = let rest = atol cs in if is_space c then rest else long_sign (c ∷ cs)

-- An `int` from the 32 low bits of a `long`.
abbrev pub signed32 : ℕ → ℤ
signed32 n = if ltb n (2 ^ 31) then pos n else negsuc (2 ^ 32 - 1 - n)

unfoldable pub to_int : ℤ → ℤ
to_int (pos n) = signed32 (n % 2 ^ 32)
to_int (negsuc n) = signed32 (2 ^ 32 - 1 - n % 2 ^ 32)

-- ===== src/Libc/Numbers.antt =====
-- `atoi` and the decimal print of `sprintf` with %d.
pub mod Decimal
use tiny_http.Prelude.{
  ℕ, zero, suc, ◌+◌, ◌-◌, ◌*◌, ◌/◌, ◌%◌, ◌^◌, Bool, true, false, List, [], ◌∷◌, ◌&&◌, Bytes, Run,
  done, fault, ◌>>=◌, ◌==◌, leb, ltb, if◌then◌else◌,
}
use tiny_http.Prelude.Int.{ℤ, pos, negsuc}
use tiny_http.Libc.Arrays.{Buf}
use tiny_http.Libc.Text.{is_space}

abbrev pub is_digit : ℕ → Bool
is_digit c = leb b'0' c && leb c b'9'

-- the number that the leading digits of a string write, from `acc` on
unfoldable pub digits : ℕ → Buf → Run ℕ
digits acc [] = fault
digits acc (c ∷ cs) =
    let more = digits (acc * 10 + (c - b'0')) cs in if is_digit c then more else done acc

abbrev pub int_max : ℕ
int_max = 2 ^ 31 - 1

-- `atoi` of a number that an `int` cannot hold is undefined.
positive : ℕ → Run ℤ
positive n = if leb n int_max then done (pos n) else fault

negative : ℕ → Run ℤ
negative zero = done (pos 0)
negative (suc n) = if leb n int_max then done (negsuc n) else fault

signed : Buf → Run ℤ
unfolding digits positive negative
signed [] = fault
signed (c ∷ cs) =
    if c == b'-'
    then (do n ← digits 0 cs; negative n)
    else if c == b'+'
    then (do n ← digits 0 cs; positive n)
    else (do n ← digits 0 (c ∷ cs); positive n)

unfoldable pub atoi : Buf → Run ℤ
unfolding signed is_space
atoi [] = fault
atoi (c ∷ cs) = let rest = atoi cs in if is_space c then rest else signed (c ∷ cs)

-- decimal digits in front of `acc`; each round divides by ten
pub print_digits : ℕ → ℕ → Bytes → Bytes
print_digits zero n acc = acc
print_digits (suc fuel) n acc =
    let rest = print_digits fuel (n / 10) ((b'0' + n % 10) ∷ acc) in
    if ltb n 10 then (b'0' + n) ∷ acc else rest

unfoldable pub print_int : ℤ → Bytes
unfolding print_digits
print_int (pos n) = print_digits (suc n) n []
print_int (negsuc n) = b'-' ∷ print_digits (suc (suc n)) (suc n) []

-- ===== src/Libc/Numbers/Decimal.antt =====
-- `atoi` reads back what `sprintf` prints with %d.
use tiny_http.Prelude.{
  ℕ, zero, suc, ◌+◌, ◌-◌, ◌*◌, ◌/◌, ◌%◌, ◌<◌, ◌≤◌, ◌≡◌, ◌≢◌, inl, inr, refl, sym, ap, ◌∙◌, true,
  false, [], ◌∷◌, ◌++◌, Bytes, length, done, timeout, >>=-ne-timeout, arith, Bool-cases, leb, ltb,
  ltb→lt, ◌==◌,
}
use tiny_http.Prelude.Int.{pos}
use tiny_http.Libc.Arrays.{Buf}
use tiny_http.Libc.Text.{is_space}
use tiny_http.Libc.Numbers.{
  is_digit, digits, int_max, positive, negative, signed, atoi, print_digits, print_int,
}

-- one more digit
digits-digit :
    (acc d : ℕ) (tail : Bytes)
    → d < 10
    → digits acc ((b'0' + d) ∷ tail) ≡ digits (acc * 10 + d) tail
unfolding digits
digits-digit acc d tail h =
    let test : is_digit (b'0' + d) ≡ true = ground arith in
    rw test (ap (λ z. digits z tail) (omega arith))

digits-print_digits :
    (fuel n : ℕ) (tail : Bytes) → n < fuel → digits 0 (print_digits fuel n tail) ≡ digits n tail
unfolding print_digits
digits-print_digits zero n tail h = absurd (omega arith)
digits-print_digits (suc fuel) n tail h = elim (Bool-cases (ltb n 10)) [
  | inl small ↦
      rw small (digits-digit 0 n tail (ltb→lt n 10 small) ∙ ap (λ z. digits z tail) (omega arith))
  | inr large ↦ rw large (
      digits-print_digits fuel (n / 10) ((b'0' + n % 10) ∷ tail) (ground arith)
      ∙ digits-digit (n / 10) (n % 10) tail (omega arith)
      ∙ ap (λ z. digits z tail) (omega arith))
]

-- The print begins with a digit.
print_digits-cons :
    (fuel n : ℕ) (tail : Bytes)
    → n < fuel
    → (d : ℕ) × (more : Bytes) × (print_digits fuel n tail ≡ d ∷ more) × (is_digit d ≡ true)
unfolding print_digits
print_digits-cons zero n tail h = absurd (omega arith)
print_digits-cons (suc fuel) n tail h = elim (Bool-cases (ltb n 10)) [
  | inl small ↦ (b'0' + n, tail, rw small refl, ground arith)
  | inr large ↦
      let (d, more, e, k) =
        print_digits-cons fuel (n / 10) ((b'0' + n % 10) ∷ tail) (ground arith) in
      (d, more, rw large e, k)
]

digits_stop : (n c : ℕ) (rest : Bytes) → is_digit c ≡ false → digits n (c ∷ rest) ≡ done n
unfolding digits
digits_stop n c rest h = rw h refl

signed-digit :
    (d : ℕ) (more : Bytes) (n : ℕ)
    → is_digit d ≡ true
    → digits 0 (d ∷ more) ≡ done n
    → n ≤ int_max
    → atoi (d ∷ more) ≡ done (pos n)
unfolding atoi
signed-digit d more n k e h =
    let space : is_space d ≡ false = unfold is_space in ground arith in
    let minus : (d == b'-') ≡ false = ground arith in
    let plus : (d == b'+') ≡ false = ground arith in
    let fits : leb n int_max ≡ true = ground arith in rw (space, minus, plus, e, fits) refl

print_digits-append :
    (fuel n : ℕ) (acc tail : Bytes)
    → n < fuel
    → print_digits fuel n acc ++ tail ≡ print_digits fuel n (acc ++ tail)
unfolding print_digits
print_digits-append zero n acc tail h = absurd (omega arith)
print_digits-append (suc fuel) n acc tail h = elim (Bool-cases (ltb n 10)) [
  | inl small ↦ rw small refl
  | inr large ↦
      rw large (print_digits-append fuel (n / 10) ((b'0' + n % 10) ∷ acc) tail (ground arith))
]

-- atoi of a printed number that an int holds gives the number back, if what follows is no digit.
pub atoi-print_int :
    (n c : ℕ) (rest : Bytes)
    → n ≤ int_max
    → is_digit c ≡ false
    → atoi (print_int (pos n) ++ c ∷ rest) ≡ done (pos n)
unfolding print_int
atoi-print_int n c rest h k =
    let (d, more, e, dk) = print_digits-cons (suc n) n (c ∷ rest) (omega arith) in
    let read = digits-print_digits (suc n) n (c ∷ rest) (omega arith) ∙ digits_stop n c rest k in
    rw (print_digits-append (suc n) n [] (c ∷ rest) (omega arith), e)
      (signed-digit d more n dk (ap (digits 0) (sym e) ∙ read) h)

abbrev pow10 : ℕ → ℕ
pow10 zero = 1
pow10 (suc k) = 10 * pow10 k

length-print_digits :
    (k fuel n : ℕ) (acc : Bytes)
    → n < pow10 (suc k)
    → length (print_digits fuel n acc) ≤ suc k + length acc
unfolding print_digits
length-print_digits k zero n acc h = omega arith
length-print_digits zero (suc fuel) n acc h =
    let small : ltb n 10 ≡ true = ground arith in rw small (omega arith)
length-print_digits (suc k) (suc fuel) n acc h = elim (Bool-cases (ltb n 10)) [
  | inl small ↦ rw small (omega arith)
  | inr large ↦
      rw large
        (omega (arith, length-print_digits k fuel (n / 10) ((b'0' + n % 10) ∷ acc) (omega arith)))
]

-- An `int` that is not negative has ten digits at most.
pub length-print_int : (n : ℕ) → n ≤ int_max → length (print_int (pos n)) ≤ 10
unfolding print_int
length-print_int n h = length-print_digits 9 (suc n) n [] (omega arith)

pub digits-ne-timeout : (acc : ℕ) (b : Buf) → digits acc b ≢ timeout
unfolding digits
digits-ne-timeout acc [] = ground arith
digits-ne-timeout acc (c ∷ cs) = ground (arith, digits-ne-timeout (acc * 10 + (c - b'0')) cs)

positive-ne-timeout : (n : ℕ) → positive n ≢ timeout
unfolding positive
positive-ne-timeout n = ground arith

negative-ne-timeout : (n : ℕ) → negative n ≢ timeout
unfolding negative
negative-ne-timeout zero = ground arith
negative-ne-timeout (suc n) = ground arith

signed-ne-timeout : (b : Buf) → signed b ≢ timeout
unfolding signed
signed-ne-timeout [] = ground arith
signed-ne-timeout (c ∷ cs) =
    let plus = λ (b : Buf).
      >>=-ne-timeout (digits 0 b) positive (digits-ne-timeout 0 b) (λ n _. positive-ne-timeout n) in
    let minus =
      >>=-ne-timeout (digits 0 cs) negative (digits-ne-timeout 0 cs)
        (λ n _. negative-ne-timeout n) in
    ground (arith, plus cs, plus (c ∷ cs), minus)

-- `atoi` runs on its string alone.
pub atoi-ne-timeout : (b : Buf) → atoi b ≢ timeout
unfolding atoi
atoi-ne-timeout [] = ground arith
atoi-ne-timeout (c ∷ cs) = elim (Bool-cases (is_space c)) [
  | inl space ↦ rw space (atoi-ne-timeout cs)
  | inr other ↦ rw other (signed-ne-timeout (c ∷ cs))
]

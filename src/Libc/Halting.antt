-- ===== src/Libc/Halting.antt =====
-- The runs of the string functions that HttpConn calls.
use tiny_http.Prelude.{ℕ, zero, suc, ◌+◌, Bool, true, false, [], ◌∷◌, Bytes, Run, ◌==◌}
use tiny_http.Prelude.{returned, faulted, Halts, Ends-bind, Ends-if, Halts-of_ne_timeout}
use tiny_http.Libc.Arrays.{Buf, load, store}
use tiny_http.Libc.Strings.{
  find, strspn, string, same_case, starts_case, store_all, atol, long, long_sign,
}
use tiny_http.Libc.Numbers.{digits}
use tiny_http.Libc.Numbers.Decimal.{digits-ne-timeout}

pub load-Halts : (b : Buf) (i : ℕ) → Halts (load b i)
unfolding load
load-Halts [] i = faulted
load-Halts (x ∷ xs) zero = returned x tt
load-Halts (x ∷ xs) (suc i) = load-Halts xs i

pub store-Halts : (b : Buf) (i v : ℕ) → Halts (store b i v)
unfolding store
store-Halts [] i v = faulted
store-Halts (x ∷ xs) zero v = returned _ tt
store-Halts (x ∷ xs) (suc i) v =
    Ends-bind (store xs i v) _ (store-Halts xs i v) (λ r _. returned _ tt)

pub find-Halts : (set : ℕ → Bool) (b : Buf) → Halts (find set b)
unfolding find
find-Halts set [] = faulted
find-Halts set (c ∷ cs) = Ends-if (c == 0) (returned _ tt) (
    Ends-if (set c) (returned _ tt)
      (Ends-bind (find set cs) _ (find-Halts set cs) (λ r _. returned _ tt)))

pub strspn-Halts : (set : ℕ → Bool) (b : Buf) → Halts (strspn set b)
unfolding strspn
strspn-Halts set [] = faulted
strspn-Halts set (c ∷ cs) = Ends-if (c == 0) (returned _ tt) (
    Ends-if (set c) (Ends-bind (strspn set cs) _ (strspn-Halts set cs) (λ r _. returned _ tt))
      (returned _ tt))

pub string-Halts : (b : Buf) → Halts (string b)
unfolding string
string-Halts [] = faulted
string-Halts (c ∷ cs) =
    Ends-if (c == 0) (returned _ tt)
      (Ends-bind (string cs) _ (string-Halts cs) (λ r _. returned _ tt))

either-Halts {ℓ} :
    {A : Type ℓ} (b : Bool) (x y : Run A)
    → Halts x
    → Halts y
    → Halts (elim b [ true ↦ x | false ↦ y ])
either-Halts true x y p q = p
either-Halts false x y p q = q

pub same_case-Halts : (s : Bytes) (b : Buf) → Halts (same_case s b)
unfolding same_case
same_case-Halts [] [] = faulted
same_case-Halts (b ∷ s) [] = faulted
same_case-Halts [] (c ∷ cs) = returned _ tt
same_case-Halts (b ∷ s) (c ∷ cs) = either-Halts _ _ _ (same_case-Halts s cs) (returned _ tt)

pub starts_case-Halts : (s : Bytes) (b : Buf) → Halts (starts_case s b)
unfolding starts_case
starts_case-Halts [] b = returned _ tt
starts_case-Halts (b ∷ s) [] = faulted
starts_case-Halts (b ∷ s) (c ∷ cs) = either-Halts _ _ _ (starts_case-Halts s cs) (returned _ tt)

pub store_all-Halts : (b : Buf) (i : ℕ) (s : Bytes) → Halts (store_all b i s)
unfolding store_all
store_all-Halts b i [] = returned b tt
store_all-Halts b i (c ∷ s) =
    Ends-bind (store b i c) _ (store-Halts b i c) (λ b' _. store_all-Halts b' (i + 1) s)

long-Halts : (minus : Bool) (n : ℕ) → Halts (long minus n)
unfolding long
long-Halts minus n = Ends-if _ faulted (Ends-if _ (returned _ tt) (returned _ tt))

digits-Halts : (acc : ℕ) (b : Buf) → Halts (digits acc b)
digits-Halts acc b = Halts-of_ne_timeout (digits acc b) (digits-ne-timeout acc b)

long_sign-Halts : (b : Buf) → Halts (long_sign b)
unfolding long_sign
long_sign-Halts [] = faulted
long_sign-Halts (c ∷ cs) =
    Ends-if _ (Ends-bind (digits 0 cs) _ (digits-Halts 0 cs) (λ n _. long-Halts true n)) (
      Ends-if _ (Ends-bind (digits 0 cs) _ (digits-Halts 0 cs) (λ n _. long-Halts false n))
        (Ends-bind (digits 0 (c ∷ cs)) _ (digits-Halts 0 (c ∷ cs)) (λ n _. long-Halts false n)))

pub atol-Halts : (b : Buf) → Halts (atol b)
unfolding atol
atol-Halts [] = faulted
atol-Halts (c ∷ cs) = Ends-if _ (atol-Halts cs) (long_sign-Halts (c ∷ cs))

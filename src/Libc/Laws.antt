-- ===== src/Libc/Laws.antt =====
-- Laws of the arrays and strings: an access in the middle of an array that is split there.
use tiny_http.Prelude.{
  ℕ, zero, suc, ◌<◌, ◌≡◌, ◌≢◌, ◌↔◌, refl, ap, true, [], ◌∷◌, ◌++◌, Bytes, length, done, timeout,
  ◌>>=◌, >>=-eq-done, arith,
}
use tiny_http.Libc.Arrays.{Buf, load, store, str_eq}
use tiny_http.Libc.Text.{same_string}

pub load_at : (pre : Bytes) (x : ℕ) (post : Bytes) → load (pre ++ x ∷ post) (length pre) ≡ done x
unfolding load
load_at [] x post = refl
load_at (p ∷ pre) x post = load_at pre x post

pub store_at :
    (pre : Bytes) (x v : ℕ) (post : Bytes)
    → store (pre ++ x ∷ post) (length pre) v ≡ done (pre ++ v ∷ post)
unfolding store
store_at [] x v post = refl
store_at (p ∷ pre) x v post = ap (λ m. m >>= λ r. done (p ∷ r)) (store_at pre x v post)

pub load_after :
    (pre : Bytes) (x y : ℕ) (post : Bytes) → load (pre ++ x ∷ y ∷ post) (suc (length pre)) ≡ done y
unfolding load
load_after [] x y post = refl
load_after (p ∷ pre) x y post = load_after pre x y post

pub store_after :
    (pre : Bytes) (x y v : ℕ) (post : Bytes)
    → store (pre ++ x ∷ y ∷ post) (suc (length pre)) v ≡ done (pre ++ x ∷ v ∷ post)
unfolding store
store_after [] x y v post = refl
store_after (p ∷ pre) x y v post = ap (λ m. m >>= λ r. done (p ∷ r)) (store_after pre x y v post)

pub load_in : (b : Buf) (i : ℕ) → i < length b → (x : ℕ) × (load b i ≡ done x)
unfolding load
load_in [] i h = absurd (omega arith)
load_in (x ∷ xs) zero h = (x, refl)
load_in (x ∷ xs) (suc i) h = load_in xs i (omega arith)

pub store_in :
    (b : Buf) (i v : ℕ)
    → i < length b
    → (b' : Buf) × (store b i v ≡ done b') × (length b' ≡ length b)
unfolding store
store_in [] i v h = absurd (omega arith)
store_in (x ∷ xs) zero v h = (v ∷ xs, refl, refl)
store_in (x ∷ xs) (suc i) v h =
    let (r, e, l) = store_in xs i v (omega arith) in
    (x ∷ r, ap (λ m. m >>= λ r. done (x ∷ r)) e, ap suc l)

pub same_string_iff : (s t : Bytes) → (same_string s t ≡ true) ↔ (s ≡ t)
unfolding same_string
same_string_iff [] [] = (λ _. refl, λ _. refl)
same_string_iff [] (b ∷ t) = ground arith
same_string_iff (a ∷ s) [] = ground arith
same_string_iff (a ∷ s) (b ∷ t) = ground (arith, same_string_iff s t)

pub load-store_ne :
    (b : Buf) (i k v : ℕ) {b' : Buf} → store b i v ≡ done b' → k ≢ i → load b' k ≡ load b k
unfolding load store
load-store_ne [] i k v e n = cc
load-store_ne (x ∷ xs) zero zero v e n = absurd (n refl)
load-store_ne (x ∷ xs) zero (suc k) v e n = ground arith
load-store_ne (x ∷ xs) (suc i) zero v e n =
    let (r, s, f) = >>=-eq-done (store xs i v) (λ r. done (x ∷ r)) e in ground arith
load-store_ne (x ∷ xs) (suc i) (suc k) v e n =
    let (r, s, f) = >>=-eq-done (store xs i v) (λ r. done (x ∷ r)) e in
    ground (arith, load-store_ne xs i k v s (λ q. n (ap suc q)))

pub load-store_self : (b : Buf) (i v : ℕ) {b' : Buf} → store b i v ≡ done b' → load b' i ≡ done v
unfolding load store
load-store_self [] i v e = cc
load-store_self (x ∷ xs) zero v e = ground arith
load-store_self (x ∷ xs) (suc i) v e =
    let (r, s, f) = >>=-eq-done (store xs i v) (λ r. done (x ∷ r)) e in
    ground (arith, load-store_self xs i v s)

-- No byte of the list is `c`.
abbrev pub Lacks : ℕ → Bytes → Type 0
Lacks c [] = Unit
Lacks c (b ∷ bs) = (b ≢ c) × Lacks c bs

pub store-ne-timeout : (b : Buf) (i v : ℕ) → store b i v ≢ timeout
unfolding store
store-ne-timeout [] i v = ground arith
store-ne-timeout (x ∷ xs) zero v = ground arith
store-ne-timeout (x ∷ xs) (suc i) v = ground (arith, store-ne-timeout xs i v)

pub length-store : (b : Buf) (i v : ℕ) {b' : Buf} → store b i v ≡ done b' → length b' ≡ length b
unfolding store
length-store [] i v e = cc
length-store (x ∷ xs) zero v e = ground arith
length-store (x ∷ xs) (suc i) v e =
    let (r, s, f) = >>=-eq-done (store xs i v) (λ r. done (x ∷ r)) e in
    ground (arith, length-store xs i v s)

pub str_eq-ne-timeout : (s : Bytes) (buf : Buf) → str_eq s buf ≢ timeout
unfolding str_eq
str_eq-ne-timeout s [] = ground arith
str_eq-ne-timeout [] (b ∷ bs) = ground arith
str_eq-ne-timeout (c ∷ s) (b ∷ bs) = ground (arith, str_eq-ne-timeout s bs)

-- ===== src/Prelude/Outcome.antt =====
-- What a run of C code comes to.
use mathlib.Core.Path.{◌≡◌, refl}
use mathlib.Core.Logic.{◌≢◌}
use mathlib.Core.Bool.{Bool, true, false}
use tiny_http.Prelude.Tests.{if◌then◌else◌}

-- `fault` is undefined behaviour, such as an access outside an array. `timeout` says that the
-- model's bound on a loop's rounds was too small; each bound comes with a proof that it is not.
pub data Run {ℓ} (A : Type ℓ) : Type ℓ where
  done : A → Run A
  fault : Run A
  timeout : Run A

infixl 5 ◌>>=◌
abbrev pub ◌>>=◌ {ℓ κ} : {A : Type ℓ} {B : Type κ} → Run A → (A → Run B) → Run B
done a >>= f = f a
fault >>= f = fault
timeout >>= f = timeout

-- Inversion of a bind that returned.
pub >>=-eq-done {ℓ κ} :
    {A : Type ℓ} {B : Type κ} (m : Run A) (f : A → Run B) {b : B}
    → (m >>= f) ≡ done b
    → (a : A) × (m ≡ done a) × (f a ≡ done b)
>>=-eq-done (done a) f h = (a, refl, h)
>>=-eq-done fault f h = cc
>>=-eq-done timeout f h = cc

pub >>=-ne-timeout {ℓ κ} :
    {A : Type ℓ} {B : Type κ} (m : Run A) (f : A → Run B)
    → m ≢ timeout
    → ((a : A) → m ≡ done a → f a ≢ timeout)
    → (m >>= f) ≢ timeout
>>=-ne-timeout (done a) f h k = k a refl
>>=-ne-timeout fault f h k = cc
>>=-ne-timeout timeout f h k = absurd (h refl)

-- A run that ends: it returns a value with a property, or meets undefined behaviour.
pub data Ends {ℓ κ} {A : Type ℓ} (P : A → Type κ) : Run A → Type (ℓ ⊔ κ) where
  returned : (a : A) → P a → Ends P (done a)
  faulted : Ends P fault

abbrev pub Halts {ℓ} : {A : Type ℓ} → Run A → Type ℓ
Halts {A = A} m = Ends {A = A} (λ a. Unit {0}) m

pub Ends-bind {ℓ κ μ ν} :
    {A : Type ℓ} {B : Type μ} {P : A → Type κ} {Q : B → Type ν} (m : Run A) (f : A → Run B)
    → Ends P m
    → ((a : A) → P a → Ends Q (f a))
    → Ends Q (m >>= f)
Ends-bind m f (returned a p) k = k a p
Ends-bind m f faulted k = faulted

pub Ends-if {ℓ κ} :
    {A : Type ℓ} {P : A → Type κ} (b : Bool) {x y : Run A}
    → Ends P x
    → Ends P y
    → Ends P (if b then x else y)
Ends-if true p q = p
Ends-if false p q = q

pub Ends-ne-timeout {ℓ κ} : {A : Type ℓ} {P : A → Type κ} {m : Run A} → Ends P m → m ≢ timeout
Ends-ne-timeout (returned a p) = λ e. cc
Ends-ne-timeout faulted = λ e. cc

pub Halts-of_ne_timeout {ℓ} : {A : Type ℓ} (m : Run A) → m ≢ timeout → Halts m
Halts-of_ne_timeout (done a) h = returned a tt
Halts-of_ne_timeout fault h = faulted
Halts-of_ne_timeout timeout h = absurd (h refl)

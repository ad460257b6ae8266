-- ===== src/BlockQueue/Front.antt =====
-- What `front` gives.
use tiny_http.Prelude.{ℕ, ◌≡◌, refl, false, List, [], ◌∷◌, some, done, arith, ◌==◌}
use tiny_http.BlockQueue.{BlockQueue, value, front, peek, pop}
use tiny_http.BlockQueue.Refine.{Holds, pop-Holds}

module _ {ℓ} {A : Type ℓ} where
  -- After pop has taken a value from a queue that holds another behind it, front still gives the
  -- value that was taken.
  pub front-pop :
      (max : ℕ) (q : BlockQueue A) (x y : A) (ys : List A)
      → Holds max q (x ∷ y ∷ ys)
      → (q' : BlockQueue A) × (pop [] q ≡ done (value x q'))
        × Holds max q' (y ∷ ys)
        × (front q' ≡ done (some x))
  unfolding front peek
  front-pop max q x y ys h =
      let (q', e, h', r) = pop-Holds max q x (y ∷ ys) h in
      let some_there : (q'.size == 0) ≡ false = ground (arith, h'.size) in
      (q', e, h', rw (some_there, r) refl)

-- ===== src/BlockQueue/Refine.antt =====
-- The queue behaves as a bounded list of its values.
use tiny_http.Prelude.{
  ℕ, zero, suc, ◌+◌, ◌-◌, ◌%◌, ◌<◌, ◌≤◌, ◌≡◌, ◌≢◌, inl, inr, refl, sym, ap, ◌∙◌, subst, Bool, true,
  false, List, [], ◌∷◌, ◌++◌, length, length-append, Run, Option, some, none, replicate, done,
  ◌>>=◌, arith, Bool-cases, leb, ltb, lt→ltb, ◌==◌, if◌then◌else◌,
}
use tiny_http.Prelude.{get_elem?, set, length-set, get_elem?-set_self, get_elem?-set_ne}
use tiny_http.Prelude.Int.{pos, negsuc}
use native.Mathlib.Nat.{mod-add-mod, mod-eq_of_lt, mod-eq-sub-mod, mod-lt, zero-mod}
use tiny_http.BlockQueue.{
  BlockQueue, block_queue, minus, step, Popped, value, waiting, not_popped, clear, read, place,
  push, take_front, pop,
}

-- What a client asks for, and what it is told.
pub data Op {ℓ} (A : Type ℓ) : Type ℓ where
  put : A → Op A
  get : Op A
  count : Op A
  reset : Op A

pub data Reply {ℓ} (A : Type ℓ) : Type ℓ where
  stored : Bool → Reply A
  got : Option A → Reply A
  sized : ℕ → Reply A
  cleared : Reply A

-- The bounded list that the queue promises to be: a full one refuses a value, and an empty one
-- has none.
module _ {ℓ} {A : Type ℓ} where
  abbrev pub answer : ℕ → List A → Op A → Reply A × List A
  answer max xs (put a) =
      if ltb (length xs) max then (stored true, xs ++ a ∷ []) else (stored false, xs)
  answer max [] get = (got none, [])
  answer max (x ∷ xs) get = (got (some x), xs)
  answer max xs count = (sized (length xs), xs)
  answer max xs reset = (cleared, [])

  abbrev pub answers : ℕ → List A → List (Op A) → List (Reply A)
  answers max xs [] = []
  answers max xs (op ∷ ops) = let (r, xs') = answer max xs op in r ∷ answers max xs' ops

  popped_reply : BlockQueue A → Popped A → Reply A × BlockQueue A
  popped_reply q (value a q') = (got (some a), q')
  popped_reply q waiting = (got none, q)
  popped_reply q not_popped = (got none, q)

  -- The queue's own answer; a `pop` that would wait is left.
  unfoldable pub perform : BlockQueue A → Op A → Run (Reply A × BlockQueue A)
  unfolding popped_reply
  perform q (put a) = do r ← push q a; done (stored r.0, r.1)
  perform q get = do r ← pop [] q; done (popped_reply q r)
  perform q count = done (sized q.size, q)
  perform q reset = done (cleared, clear q)

  unfoldable pub run : BlockQueue A → List (Op A) → Run (List (Reply A))
  run q [] = done []
  run q (op ∷ ops) = do r ← perform q op; rest ← run r.1 ops; done (r.0 ∷ rest)

  -- The values `xs` stand in the array from index `i` on, going round at `max`.
  abbrev pub Cells : List A → ℕ → ℕ → List A → Type ℓ
  Cells array max i [] = Unit
  Cells array max i (x ∷ xs) = (get_elem? array i ≡ some x) × Cells array max ((i + 1) % max) xs

  pub record Holds (max : ℕ) (q : BlockQueue A) (xs : List A) : Type ℓ where
    pub bound : q.max_size ≡ max
    pub positive : 0 < max
    pub room : length q.array ≡ max
    pub size : q.size ≡ length xs
    pub fits : length xs ≤ max
    pub start : ℕ
    pub start_in : start < max
    pub front_at : step max q.front ≡ pos start
    pub back_at : step max q.back ≡ pos ((start + length xs) % max)
    pub cells : Cells q.array max start xs

-- Fewer than `max` steps do not come back to the start.
round_ne : (max i k : ℕ) → i < max → 0 < k → k < max → (i + k) % max ≢ i
round_ne max i k h p l = elim (Bool-cases (ltb (i + k) max)) [
  | inl less ↦
      let low : i + k < max = ground arith in omega (arith, mod-eq_of_lt {n = i + k} {m = max} low)
  | inr over ↦
      let high : max ≤ i + k = ground arith in
      omega (
        arith,
        mod-eq-sub-mod {n = i + k} {m = max} high,
        mod-eq_of_lt {n = i + k - max} {m = max} (omega arith),
      )
]

round_lt : (max i : ℕ) → 0 < max → i % max < max
round_lt max i h = mod-lt i h

module _ {ℓ} {A : Type ℓ} where
  Cells-set :
      (array : List A) (max i : ℕ) (xs : List A) (t : ℕ) (a : A)
      → length array ≡ max
      → i < max
      → length xs < max
      → t ≡ (i + length xs) % max
      → Cells array max i xs
      → Cells (set array t a) max i (xs ++ a ∷ [])
  Cells-set array max i [] t a r h l e c =
      let here : t ≡ i = e ∙ ap (λ z. z % max) (omega arith) ∙ mod-eq_of_lt h in
      (rw here (get_elem?-set_self array i a (omega arith)), tt)
  Cells-set array max i (x ∷ xs) t a r h l e c =
      let apart : t ≢ i = λ z. round_ne max i (suc (length xs)) h (omega arith) l (sym e ∙ z) in
      let shift : (i + suc (length xs)) % max ≡ ((i + 1) % max + length xs) % max =
        ap (λ z. z % max) (omega arith) ∙ sym (mod-add-mod (i + 1) max (length xs)) in
      (
        get_elem?-set_ne array t i a apart ∙ c.0,
        Cells-set array max ((i + 1) % max) xs t a r (round_lt max (i + 1) (omega arith))
            (omega arith) (e ∙ shift) c.1,
      )

  push-Holds :
      (max : ℕ) (q : BlockQueue A) (xs : List A) (a : A)
      → Holds max q xs
      → length xs < max
      → (q' : BlockQueue A) × (push q a ≡ done (true, q')) × Holds max q' (xs ++ a ∷ [])
  unfolding push place step
  push-Holds max q xs a h l =
      let t = (h.start + length xs) % max in
      let open_place : leb q.max_size q.size ≡ false = ground (arith, h.bound, h.size) in
      let at_back : step q.max_size q.back ≡ pos t = ap (λ z. step z q.back) h.bound ∙ h.back_at in
      let inside : ltb t (length q.array) ≡ true =
        lt→ltb t (length q.array)
          (omega (arith, round_lt max (h.start + length xs) h.positive, h.room)) in
      let longer : length (xs ++ a ∷ []) ≡ suc (length xs) =
        omega (arith, length-append xs (a ∷ [])) in
      (
        record q { array = set q.array t a; size = q.size + 1; back = pos t },
        rw (open_place, at_back, inside) refl,
        record {
          bound = h.bound;
          positive = h.positive;
          room = length-set q.array t a ∙ h.room;
          size = omega (arith, h.size, longer);
          fits = omega (arith, longer);
          start = h.start;
          start_in = h.start_in;
          front_at = h.front_at;
          back_at =
              ap pos (
                mod-add-mod (h.start + length xs) max 1
                ∙ ap (λ z. z % max) (omega (arith, longer)));
          cells = Cells-set q.array max h.start xs t a h.room h.start_in l refl h.cells;
        },
      )

  pub read_lem :
      (array : List A) (i : ℕ) (x : A) → get_elem? array i ≡ some x → read array (pos i) ≡ done x
  unfolding read
  read_lem array i x e = ground arith

  pub pop-Holds :
      (max : ℕ) (q : BlockQueue A) (x : A) (xs : List A)
      → Holds max q (x ∷ xs)
      → (q' : BlockQueue A) × (pop [] q ≡ done (value x q'))
        × Holds max q' xs
        × (read q'.array q'.front ≡ done x)
  unfolding pop take_front step
  pop-Holds max q x xs h =
      let some_there : (q.size == 0) ≡ false = ground (arith, h.size) in
      let at_front : step q.max_size q.front ≡ pos h.start =
        ap (λ z. step z q.front) h.bound ∙ h.front_at in
      (
        record q { size = q.size - 1; front = pos h.start },
        rw (some_there, at_front, read_lem q.array h.start x h.cells.0) refl,
        record {
          bound = h.bound;
          positive = h.positive;
          room = h.room;
          size = omega (arith, h.size);
          fits = omega (arith, h.fits);
          start = (h.start + 1) % max;
          start_in = round_lt max (h.start + 1) h.positive;
          front_at = refl;
          back_at =
              h.back_at
              ∙ ap pos (
                  ap (λ z. z % max) (omega arith)
                  ∙ sym (mod-add-mod (h.start + 1) max (length xs)));
          cells = h.cells.1;
        },
        read_lem q.array h.start x h.cells.0,
      )

  empty-Holds :
      (max : ℕ) (q : BlockQueue A)
      → q.max_size ≡ max
      → 0 < max
      → length q.array ≡ max
      → q.size ≡ 0
      → q.front ≡ negsuc 0
      → q.back ≡ negsuc 0
      → Holds max q []
  unfolding step
  empty-Holds max q b p r z f k =
      let zero_step : step max (negsuc 0) ≡ pos 0 = ap minus (zero-mod max) in
      record {
        bound = b;
        positive = p;
        room = r;
        size = z;
        fits = omega arith;
        start = 0;
        start_in = p;
        front_at = ap (step max) f ∙ zero_step;
        back_at = ap (step max) k ∙ zero_step ∙ ap pos (sym (zero-mod max));
        cells = tt;
      }

  pub perform-Holds :
      (max : ℕ) (q : BlockQueue A) (xs : List A) (op : Op A)
      → Holds max q xs
      → (q' : BlockQueue A) × (perform q op ≡ done ((answer max xs op).0, q'))
        × Holds max q' (answer max xs op).1
  unfolding perform pop clear popped_reply push
  perform-Holds max q xs (put a) h = elim (Bool-cases (ltb (length xs) max)) [
    | inl room ↦
        let (q', e, h') = push-Holds max q xs a h (ground arith) in rw room (q', rw e refl, h')
    | inr full ↦
        let refused : leb q.max_size q.size ≡ true = ground (arith, h.bound, h.size, h.fits) in
        rw full (q, rw refused refl, h)
  ]
  perform-Holds max q [] get h =
      let nothing : (q.size == 0) ≡ true = ground (arith, h.size) in (q, rw nothing refl, h)
  perform-Holds max q (x ∷ xs) get h =
      let (q', e, h', _) = pop-Holds max q x xs h in (q', rw e refl, h')
  perform-Holds max q [] count h = (q, ap (λ n. done (sized n, q)) h.size, h)
  perform-Holds max q (x ∷ xs) count h = (q, ap (λ n. done (sized n, q)) h.size, h)
  perform-Holds max q [] reset h =
      (clear q, refl, empty-Holds max (clear q) h.bound h.positive h.room refl refl refl)
  perform-Holds max q (x ∷ xs) reset h =
      (clear q, refl, empty-Holds max (clear q) h.bound h.positive h.room refl refl refl)

  -- No sequence of calls tells a queue that holds `xs` from the bounded list of these values.
  pub run_refines :
      (max : ℕ) (ops : List (Op A)) (q : BlockQueue A) (xs : List A)
      → Holds max q xs
      → run q ops ≡ done (answers max xs ops)
  unfolding run
  run_refines max [] q xs h = refl
  run_refines max (op ∷ ops) q xs h =
      let (q', e, h') = perform-Holds max q xs op h in
      rw (e, run_refines max ops q' (answer max xs op).1 h') refl

  length-replicate : (n : ℕ) (a : A) → length (replicate n a) ≡ n
  length-replicate zero a = refl
  length-replicate (suc n) a = ap suc (length-replicate n a)

  block_queue-Holds :
      (a : A) (n : ℕ) {q : BlockQueue A} → block_queue a (pos n) ≡ some q → Holds n q []
  unfolding block_queue
  block_queue-Holds a n {q} e = elim (Bool-cases (n == 0)) [
    | inl none_there ↦ let x = rw none_there at e in cc x
    | inr some_there ↦
        let x : some (record {
          array = replicate n a;
          size = 0;
          max_size = n;
          front = negsuc 0;
          back = negsuc 0;
        })
            ≡ some q =
          rw some_there at e in
        let same : record {
          array = replicate n a;
          size = 0;
          max_size = n;
          front = negsuc 0;
          back = negsuc 0;
        }
            ≡ q =
          cc in
        subst (λ z. Holds n z []) same
          (empty-Holds n
            (record {
              array = replicate n a;
              size = 0;
              max_size = n;
              front = negsuc 0;
              back = negsuc 0;
            })
            refl (ground arith) (length-replicate n a) refl refl refl)
  ]

  -- No sequence of calls of push, pop, size and clear, where a pop that would wait is left, tells a
  -- queue constructed with a positive size from a bounded list that starts empty; no access of a
  -- call is outside the array.
  pub block_queue_refines :
      (a : A) (n : ℕ) (ops : List (Op A)) {q : BlockQueue A}
      → block_queue a (pos n) ≡ some q
      → run q ops ≡ done (answers n [] ops)
  block_queue_refines a n ops {q} e = run_refines n ops q [] (block_queue-Holds a n e)

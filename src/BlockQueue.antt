-- ===== src/BlockQueue.antt =====
-- version_03/log/block_queue.h: the bounded queue of the log. Each function is what a thread does
-- with the lock held.
pub mod Refine
pub mod Front
mod Tests
use tiny_http.Prelude.{
  ℕ, zero, suc, ◌+◌, ◌-◌, ◌*◌, ◌/◌, ◌%◌, ◌^◌, ◌<◌, ◌≤◌, ◌≡◌, ◌≢◌, ◌↔◌, ◌⊎◌, inl, inr, refl, sym, ap,
  ◌∙◌, subst, Bool, true, false, List, [], ◌∷◌, ◌++◌, append_assoc, append-nil, Bytes, length,
  length-append, take, drop, length-drop, Run, Option, some, none, replicate, done, fault, timeout,
  ◌>>=◌, >>=-eq-done, >>=-ne-timeout, arith, Bool-cases, leb, ltb, lt→ltb, not, ◌&&◌, ◌||◌, ◌==◌,
  if◌then◌else◌, codes, String,
}
use tiny_http.Prelude.{get_elem?, set}
use tiny_http.Prelude.Int.{ℤ, pos, negsuc}

-- `block_queue<T>`; the sizes are never negative, and the indices may be.
pub record BlockQueue {ℓ} (A : Type ℓ) : Type ℓ where
  pub array : List A
  pub size : ℕ
  pub max_size : ℕ
  pub front : ℤ
  pub back : ℤ

-- -n as an `int`
abbrev pub minus : ℕ → ℤ
minus zero = pos 0
minus (suc n) = negsuc n

-- `(i + 1) % max`, where `%` takes the sign of the left side
unfoldable pub step : ℕ → ℤ → ℤ
step max (pos n) = pos ((n + 1) % max)
step max (negsuc n) = minus (n % max)

-- What `pop` comes to.
pub data Popped {ℓ} (A : Type ℓ) : Type ℓ where
  value : A → BlockQueue A → Popped A
  waiting : Popped A
  not_popped : Popped A

module _ {ℓ} {A : Type ℓ} where
  -- The constructor; `a` is what `new T[n]` puts in each place, and `none` stands for `exit`.
  unfoldable pub block_queue : A → ℤ → Option (BlockQueue A)
  block_queue a (negsuc n) = none
  block_queue a (pos n) =
      if n == 0
      then none
      else some (record {
        array = replicate n a;
        size = 0;
        max_size = n;
        front = negsuc 0;
        back = negsuc 0;
      })

  unfoldable pub clear : BlockQueue A → BlockQueue A
  clear q = record q { size = 0; front = negsuc 0; back = negsuc 0 }

  unfoldable pub is_full : BlockQueue A → Bool
  is_full q = leb q.max_size q.size

  unfoldable pub is_empty : BlockQueue A → Bool
  is_empty q = q.size == 0

  -- m_array[i]
  unfoldable pub read : List A → ℤ → Run A
  read array (negsuc n) = fault
  read array (pos i) = elim (get_elem? array i) [ none ↦ fault | some a ↦ done a ]

  -- m_array[i] = value
  unfoldable pub place : List A → ℤ → A → Run (List A)
  place array (negsuc n) a = fault
  place array (pos i) a = if ltb i (length array) then done (set array i a) else fault

  -- `front` and `back`: the value, or `none` for false
  unfoldable pub peek : BlockQueue A → ℤ → Run (Option A)
  peek q i =
      let found = (do a ← read q.array i; done (some a)) in if q.size == 0 then done none else found

  unfoldable pub front : BlockQueue A → Run (Option A)
  unfolding peek
  front q = peek q q.front

  unfoldable pub back : BlockQueue A → Run (Option A)
  unfolding peek
  back q = peek q q.back

  unfoldable pub push : BlockQueue A → A → Run (Bool × BlockQueue A)
  unfolding step place
  push q a =
      let back = step q.max_size q.back in
      let added = (do
        array ← place q.array back a
        done (true, record q { array = array; size = q.size + 1; back = back })) in
      if leb q.max_size q.size then done (false, q) else added

  -- What `pop` does once the queue is not empty.
  unfoldable pub take_front : BlockQueue A → Run (Popped A)
  unfolding step
  take_front q = do
    let front = step q.max_size q.front
    a ← read q.array front
    done (value a (record q { size = q.size - 1; front = front }))

  -- `pop`; each call of `wait` comes to a list's entry: the queue as it is when the lock is held
  -- again, or `none` where the call fails. Behind the last entry the thread still waits.
  unfoldable pub pop : List (Option (BlockQueue A)) → BlockQueue A → Run (Popped A)
  unfolding take_front
  pop [] q = if q.size == 0 then done waiting else take_front q
  pop (none ∷ wakes) q = if q.size == 0 then done not_popped else take_front q
  pop (some q' ∷ wakes) q = if q.size == 0 then pop wakes q' else take_front q

-- ===== src/Handler/Dispatch.antt =====
-- version_02/bin/http.c: the loop of `main`, which hands clients out to the epoll instances.
use tiny_http.Prelude.{
  ℕ, ◌+◌, ◌%◌, ◌<◌, ◌≤◌, ◌≡◌, refl, sym, ap, ◌∙◌, false, List, [], ◌∷◌, ◌++◌, append_assoc,
  append-nil, Bytes, Run, Option, some, none, done, timeout, arith, Bool-cases, inl, inr, ltb, ◌==◌,
  if◌then◌else◌,
}
use native.Mathlib.Nat.{mod-lt, mod-eq_of_lt, mod-add-mod, mod_self}
use tiny_http.Epoll.{Client}
use tiny_http.Handler.States.{accept_client}

-- The clients that each epoll instance has got, and how many failures of `accept` were logged.
pub record Dispatch : Type 0 where
  pub clients : ℕ → List Client
  pub failures : ℕ

-- What `accept` gives: a descriptor with the text of its address, or `none` for a failure.
abbrev pub Accepted : Type 0
Accepted = Option (ℕ × Bytes)

-- The body of the inner loop for the instance `i`; `junk` is what `malloc` leaves in the strings.
unfoldable pub hand_out : Bytes → Dispatch → ℕ → Accepted → Dispatch
hand_out junk d i none = record d { failures = d.failures + 1 }
hand_out junk d i (some (fd, ip_port)) = record d {
  clients =
      λ j. if j == i then d.clients j ++ accept_client fd junk junk ip_port ∷ [] else d.clients j;
}

-- The two loops, for the calls of `accept` that return; without a thread the outer loop spins.
unfoldable pub hand_out_loop : Bytes → ℕ → ℕ → Dispatch → List Accepted → Run Dispatch
hand_out_loop junk thread_num i d [] = done d
hand_out_loop junk thread_num i d (a ∷ rest) =
    let here = if ltb i thread_num then i else 0 in
    let on = hand_out_loop junk thread_num (here + 1) (hand_out junk d here a) rest in
    if thread_num == 0 then timeout else on

-- The clients of the calls whose number leaves the rest `j`, counted from `k` on.
abbrev pub picked : Bytes → ℕ → ℕ → ℕ → List Accepted → List Client
picked junk n j k [] = []
picked junk n j k (none ∷ rest) = picked junk n j (k + 1) rest
picked junk n j k (some (fd, ip_port) ∷ rest) =
    let others = picked junk n j (k + 1) rest in
    if j == k % n then accept_client fd junk junk ip_port ∷ others else others

-- The index that the loop is at, and the next one.
turn_index : (n i k : ℕ) → 0 < n → i ≤ n → i % n ≡ k % n → (if ltb i n then i else 0) ≡ k % n
turn_index n i k p h e = elim (Bool-cases (ltb i n)) [
  | inl inside ↦ rw inside (sym (mod-eq_of_lt (ground arith)) ∙ e)
  | inr round ↦
      let last : i ≡ n = ground arith in
      rw round (sym (mod_self n) ∙ ap (λ z. z % n) (sym last) ∙ e)
]

hand_out-clients :
    (junk : Bytes) (n j k : ℕ) (d : Dispatch) (a : Accepted) (rest : List Accepted)
    → (hand_out junk d (k % n) a).clients j ++ picked junk n j (k + 1) rest
      ≡ d.clients j ++ picked junk n j k (a ∷ rest)
unfolding hand_out
hand_out-clients junk n j k d none rest = refl
hand_out-clients junk n j k d (some (fd, ip_port)) rest = elim (Bool-cases (j == k % n)) [
  | inl here ↦ rw here (
      append_assoc (d.clients j) (accept_client fd junk junk ip_port ∷ [])
        (picked junk n j (k + 1) rest))
  | inr other ↦ rw other refl
]

hand_out_loop-from :
    (accepted : List Accepted) (junk : Bytes) (n i k : ℕ) (d : Dispatch)
    → 0 < n
    → i ≤ n
    → i % n ≡ k % n
    → (d' : Dispatch) × (hand_out_loop junk n i d accepted ≡ done d')
      × ((j : ℕ) → d'.clients j ≡ d.clients j ++ picked junk n j k accepted)
unfolding hand_out_loop
hand_out_loop-from [] junk n i k d p h e = (d, refl, λ j. sym (append-nil (d.clients j)))
hand_out_loop-from (a ∷ rest) junk n i k d p h e =
    let some_threads : (n == 0) ≡ false = ground arith in
    let here = turn_index n i k p h e in
    let (d', run, rests) =
      hand_out_loop-from rest junk n (k % n + 1) (k + 1) (hand_out junk d (k % n) a) p
        (omega (arith, mod-lt k p)) (mod-add-mod k n 1) in
    rw (some_threads, here) (d', run, λ j. rests j ∙ hand_out-clients junk n j k d a rest)

-- With at least one thread, the client of the call of accept with number k, counted from 0 with the
-- calls that fail, goes to the epoll instance k modulo the number of threads, in order.
pub hand_out_loop_lem :
    (junk : Bytes) (thread_num : ℕ) (d : Dispatch) (accepted : List Accepted)
    → 0 < thread_num
    → (d' : Dispatch) × (hand_out_loop junk thread_num 0 d accepted ≡ done d')
      × ((j : ℕ) → d'.clients j ≡ d.clients j ++ picked junk thread_num j 0 accepted)
hand_out_loop_lem junk n d accepted p =
    hand_out_loop-from accepted junk n 0 0 d p (omega arith) refl

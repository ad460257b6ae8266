-- ===== src/Httpd/Main/Late.antt =====
-- Which client a thread serves.
use tiny_http.Prelude.{
  ℕ, ◌+◌, ◌≤◌, ◌≡◌, refl, ap, ◌∙◌, subst, List, [], ◌∷◌, ◌++◌, append_assoc, length, length-append,
  Option, some, none, arith,
}
use tiny_http.Httpd.Main.{
  Thread, starting, serving, Main, start, accept_one, Step, accepts, reads, Reach, here, next,
}

-- `fd` stands in the list at the index `i` or behind it.
abbrev pub Late : List ℕ → ℕ → ℕ → Type 0
Late accepted i fd = (xs : List ℕ) × (ys : List ℕ) × (accepted ≡ xs ++ fd ∷ ys) × (i ≤ length xs)

abbrev AllLate : List ℕ → ℕ → List Thread → Type 0
AllLate accepted i [] = Unit {0}
AllLate accepted i (starting ∷ ts) = AllLate accepted (i + 1) ts
AllLate accepted i (serving fd ∷ ts) = Late accepted i fd × AllLate accepted (i + 1) ts

abbrev Last : List ℕ → Option ℕ → Type 0
Last accepted none = Unit {0}
Last accepted (some fd) = (xs : List ℕ) × (accepted ≡ xs ++ fd ∷ [])

record Inv (m : Main) : Type 0 where
  number : length m.threads ≡ length m.accepted
  last : Last m.accepted m.client_sock
  late : AllLate m.accepted 0 m.threads

AllLate-snoc :
    (accepted : List ℕ) (x i : ℕ) (ts : List Thread)
    → AllLate accepted i ts
    → AllLate (accepted ++ x ∷ []) i (ts ++ starting ∷ [])
AllLate-snoc accepted x i [] h = tt
AllLate-snoc accepted x i (starting ∷ ts) h = AllLate-snoc accepted x (i + 1) ts h
AllLate-snoc accepted x i (serving fd ∷ ts) ((xs, ys, e, k), h) = (
  (xs, ys ++ x ∷ [], ap (λ z. z ++ x ∷ []) e ∙ append_assoc xs (fd ∷ ys) (x ∷ []), k),
  AllLate-snoc accepted x (i + 1) ts h,
)

AllLate-read :
    (accepted : List ℕ) (fd i : ℕ) (pre behind : List Thread)
    → Late accepted (i + length pre) fd
    → AllLate accepted i (pre ++ starting ∷ behind)
    → AllLate accepted i (pre ++ serving fd ∷ behind)
AllLate-read accepted fd i [] behind (xs, ys, e, k) h = ((xs, ys, e, omega arith), h)
AllLate-read accepted fd i (starting ∷ pre) behind (xs, ys, e, k) h =
    AllLate-read accepted fd (i + 1) pre behind (xs, ys, e, omega arith) h
AllLate-read accepted fd i (serving other ∷ pre) behind (xs, ys, e, k) h =
    (h.0, AllLate-read accepted fd (i + 1) pre behind (xs, ys, e, omega arith) h.1)

AllLate-at :
    (accepted : List ℕ) (fd i : ℕ) (pre behind : List Thread)
    → AllLate accepted i (pre ++ serving fd ∷ behind)
    → Late accepted (i + length pre) fd
AllLate-at accepted fd i [] behind ((xs, ys, e, k), h) = (xs, ys, e, omega arith)
AllLate-at accepted fd i (starting ∷ pre) behind h =
    let (xs, ys, e, k) = AllLate-at accepted fd (i + 1) pre behind h in (xs, ys, e, omega arith)
AllLate-at accepted fd i (serving other ∷ pre) behind h =
    let (xs, ys, e, k) = AllLate-at accepted fd (i + 1) pre behind h.1 in (xs, ys, e, omega arith)

Step-Inv : {m m' : Main} → Step m m' → Inv m → Inv m'
unfolding accept_one
Step-Inv {m} (accepts fd) v = record {
  number = omega (
    arith,
    v.number,
    length-append m.threads (starting ∷ []),
    length-append m.accepted (fd ∷ []),
  );
  last = (m.accepted, refl);
  late = AllLate-snoc m.accepted fd 0 m.threads v.late;
}
Step-Inv {m} (reads pre fd behind e c) v =
    let (xs, l) = subst (Last m.accepted) c v.last in
    let size = ap (length {A = Thread}) e in
    let before = length-append pre (starting ∷ behind) in
    let after = length-append pre (serving fd ∷ behind) in
    let size' = ap (length {A = ℕ}) l in
    let late : Late m.accepted (0 + length pre) fd =
      (xs, [], l, omega (arith, v.number, size, before, size', length-append xs (fd ∷ []))) in
    record {
      number = omega (arith, v.number, size, before, after);
      last = v.last;
      late = AllLate-read m.accepted fd 0 pre behind late (subst (AllLate m.accepted 0) e v.late);
    }

Reach-Inv : {m : Main} → Reach start m → Inv m
Reach-Inv here = record { number = refl; last = tt; late = tt }
Reach-Inv (next r st) = Step-Inv st (Reach-Inv r)

-- In whatever order main accepts clients and the threads read client_sock: a thread serves the
-- client that it was created for or one that was accepted later, and there is one thread for each
-- client accepted.
pub Reach-Late :
    {m : Main} (pre : List Thread) (fd : ℕ) (behind : List Thread)
    → Reach start m
    → m.threads ≡ pre ++ serving fd ∷ behind
    → Late m.accepted (length pre) fd × (length m.threads ≡ length m.accepted)
Reach-Late {m} pre fd behind r e =
    let v = Reach-Inv r in
    let (xs, ys, l, k) =
      AllLate-at m.accepted fd 0 pre behind (subst (AllLate m.accepted 0) e v.late) in
    ((xs, ys, l, omega arith), v.number)

-- Two clients that are accepted before the first of their threads reads: both threads can serve the second.
pub lost_client :
    (fd fd' : ℕ)
    → Reach start (record {
      client_sock = some fd';
      threads = serving fd' ∷ serving fd' ∷ [];
      accepted = fd ∷ fd' ∷ [];
    })
unfolding accept_one
lost_client fd fd' =
    next
      (next (next (next here (accepts fd)) (accepts fd')) (reads [] fd' (starting ∷ []) refl refl))
      (reads (serving fd' ∷ []) fd' [] refl refl)

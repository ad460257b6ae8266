-- ===== src/ThreadPool/Weights.antt =====
-- Sums over the threads.
use tiny_http.Prelude.{
  ℕ, ◌+◌, ◌≡◌, List, [], ◌∷◌, ◌++◌, Option, some, none, arith, ◌==◌, if◌then◌else◌,
}
use tiny_http.ThreadPool.{Pc, woken, reserved, serving, releasing, posting}

abbrev pub total : (Pc → ℕ) → List Pc → ℕ
total w [] = 0
total w (p ∷ ps) = w p + total w ps

pub total-append : (w : Pc → ℕ) (ps qs : List Pc) → total w (ps ++ qs) ≡ total w ps + total w qs
total-append w [] qs = omega arith
total-append w (p ∷ ps) qs = omega (arith, total-append w ps qs)

-- The threads that have an entry of the queue before them.
abbrev pub woken_count : Pc → ℕ
woken_count woken = 1
woken_count _ = 0

-- The threads that have a connection of the list before them.
abbrev pub reserved_count : Pc → ℕ
reserved_count (reserved r) = 1
reserved_count _ = 0

abbrev pub posting_count : Pc → ℕ
posting_count posting = 1
posting_count _ = 0

abbrev pub one : Option ℕ → ℕ
one none = 0
one (some c) = 1

abbrev pub one_of : ℕ → Option ℕ → ℕ
one_of c none = 0
one_of c (some d) = if d == c then 1 else 0

-- The connections that a thread holds: all, and those that are `c`.
abbrev pub held : Pc → ℕ
held (serving r con) = one con
held (releasing con) = one con
held _ = 0

abbrev pub held_of : ℕ → Pc → ℕ
held_of c (serving r con) = one_of c con
held_of c (releasing con) = one_of c con
held_of c _ = 0

abbrev pub count : ℕ → List ℕ → ℕ
count c [] = 0
count c (d ∷ ds) = (if d == c then 1 else 0) + count c ds

pub count-snoc :
    (c d : ℕ) (ds : List ℕ) → count c (ds ++ d ∷ []) ≡ count c ds + (if d == c then 1 else 0)
count-snoc c d [] = omega arith
count-snoc c d (e ∷ ds) = omega (arith, count-snoc c d ds)

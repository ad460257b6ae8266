-- ===== src/ThreadPool/System/Connected.antt =====
-- The connections that requests are served with.
use tiny_http.Prelude.{
  ℕ, zero, suc, ◌^◌, ◌<◌, ◌≤◌, ◌≡◌, ◌≢◌, refl, ap, subst, Bool, List, [], ◌∷◌, ◌++◌, length,
  length-append, Option, some, none, done, arith, replicate,
}
use tiny_http.Prelude.Int.{ℤ}
use tiny_http.Locks.{wait, post, lock, unlock}
use tiny_http.ConnectionPool.{ConnectionPool, take_conn, give_conn}
use tiny_http.ConnectionPool.Laws.{IsSound}
use tiny_http.ThreadPool.{
  ThreadPool, threadpool, Pc, idle, woken, asking, waiting, reserved, serving, releasing, posting,
  stopped, Shared, turn,
}
use tiny_http.ThreadPool.Weights.{total, held}
use tiny_http.ThreadPool.System.{System, Step, works, adds, refuses, posts, Counts}
use tiny_http.ThreadPool.System.Invariant.{
  Inv, pending, Whole, others, Split_of_Whole, Reach, here, next, Reach-Inv, start, start-Inv,
}

abbrev HasConn : Pc → Type 0
HasConn (serving r none) = ⊥
HasConn _ = Unit {0}

abbrev AllHave : List Pc → Type 0
AllHave [] = Unit {0}
AllHave (p ∷ ps) = HasConn p × AllHave ps

-- Each request was served with a connection.
abbrev pub AllServed : List (ℕ × Option ℕ) → Type 0
AllServed [] = Unit {0}
AllServed ((r, con) ∷ rest) = (con ≢ none) × AllServed rest

AllServed-snoc :
    (xs : List (ℕ × Option ℕ)) (r c : ℕ) → AllServed xs → AllServed (xs ++ (r, some c) ∷ [])
AllServed-snoc [] r c h = (λ e. cc, tt)
AllServed-snoc ((r', con) ∷ xs) r c h = (h.0, AllServed-snoc xs r c h.1)

AllHave-split : (ps : List Pc) (p : Pc) (qs : List Pc) → AllHave (ps ++ p ∷ qs) → HasConn p
AllHave-split [] p qs h = h.0
AllHave-split (q ∷ ps) p qs h = AllHave-split ps p qs h.1

AllHave-put :
    (ps : List Pc) (p p' : Pc) (qs : List Pc)
    → HasConn p'
    → AllHave (ps ++ p ∷ qs)
    → AllHave (ps ++ p' ∷ qs)
AllHave-put [] p p' qs k h = (k, h.1)
AllHave-put (q ∷ ps) p p' qs k h = (h.0, AllHave-put ps p p' qs k h.1)

total_held-le : (ps : List Pc) → total held ps ≤ length ps
total_held-le [] = omega arith
total_held-le (p ∷ ps) = omega (arith, total_held-le ps, held_le p)
  where
    held_le : (p : Pc) → held p ≤ 1
    held_le (serving r none) = omega arith
    held_le (serving r (some c)) = omega arith
    held_le (releasing none) = omega arith
    held_le (releasing (some c)) = omega arith
    held_le idle = omega arith
    held_le woken = omega arith
    held_le (asking r) = omega arith
    held_le (waiting r) = omega arith
    held_le (reserved r) = omega arith
    held_le posting = omega arith
    held_le stopped = omega arith

-- A step where another connection is free, or in the hand of no one.
turn-HasConn :
    {conns : List ℕ} {max w v u : ℕ} (h : ℕ) {hc : ℕ → ℕ} {asked : List (Option ℕ)} (s : Shared)
    (p : Pc) (s' : Shared) (p' : Pc)
    → Counts conns max w v u h hc asked s p
    → h < length conns
    → HasConn p
    → AllServed s.served
    → turn s p ≡ done (some (s', p'))
    → HasConn p' × AllServed s'.served
unfolding turn wait post take_conn give_conn unlock lock
turn-HasConn h s idle s' p' k lt has a e = ground arith
turn-HasConn h s woken s' p' k lt has a e = ground arith
turn-HasConn h s (asking r) s' p' k lt has a e = ground arith
turn-HasConn h s (waiting r) s' p' k lt has a e = ground arith
turn-HasConn h s (reserved r) s' p' k lt has a e = ground arith
turn-HasConn h s (serving r none) s' p' k lt has a e = absurd has
turn-HasConn h s (serving r (some c)) s' p' k lt has a e =
    ground (arith, AllServed-snoc s.served r c a)
turn-HasConn h s (releasing none) s' p' k lt has a e = ground arith
turn-HasConn h s (releasing (some con)) s' p' k lt has a e = ground arith
turn-HasConn h s posting s' p' k lt has a e = ground arith
turn-HasConn h s stopped s' p' k lt has a e = cc

record Served (n : ℕ) (s : System) : Type 0 where
  number : length s.threads ≡ n
  have : AllHave s.threads
  served : AllServed s.shared.served

Step-Served :
    {conns : List ℕ} {max n : ℕ} {s t : System}
    → n ≤ length conns
    → Step s t
    → Inv conns max s
    → Served n s
    → Served n t
Step-Served {conns} {max} {n} {s} few (works pre p p' behind sh e t) k v =
    let whole : AllHave (pre ++ p ∷ behind) = subst AllHave e v.have in
    let split = Split_of_Whole conns max (pending s.adding) s.asked s.shared pre p behind (
      subst (λ threads. Whole conns max (pending s.adding) s.asked s.shared pre p behind threads) e
        k) in
    let size = ap (length {A = Pc}) e in
    let before = length-append pre (p ∷ behind) in
    let after = length-append pre (p' ∷ behind) in
    let others_few : others conns max (pending s.adding) s.asked s.shared pre p behind held
        < length conns =
      omega (arith, v.number, size, before, total_held-le pre, total_held-le behind) in
    let (has, a) =
      turn-HasConn _ s.shared p sh p' split others_few (AllHave-split pre p behind whole) v.served
        t in
    record {
      number = omega (arith, v.number, size, before, after);
      have = AllHave-put pre p p' behind has whole;
      served = a;
    }
Step-Served few (adds r q a e) k v = record { number = v.number; have = v.have; served = v.served }
Step-Served few (refuses r q a e) k v = record {
  number = v.number;
  have = v.have;
  served = v.served;
}
Step-Served few (posts a) k v = record { number = v.number; have = v.have; served = v.served }

AllHave-idle : (n : ℕ) → AllHave (replicate n idle)
AllHave-idle zero = tt
AllHave-idle (suc n) = (tt, AllHave-idle n)

length-replicate : (n : ℕ) → length (replicate n idle) ≡ n
length-replicate zero = refl
length-replicate (suc n) = ap suc (length-replicate n)

Reach-Served :
    {conns : List ℕ} {max n : ℕ} {first s : System}
    → length conns < 2 ^ 32
    → n ≤ length conns
    → Inv conns max first
    → Served n first
    → Reach first s
    → Served n s
Reach-Served small few k v here = v
Reach-Served small few k v (next r st) =
    Step-Served few st (Reach-Inv small k r) (Reach-Served small few k v r)

-- From new pools with at least as many connections as threads, whatever the order of the steps:
-- each request that is served has a connection, since GetConnection never finds the list empty.
pub Reach-AllServed :
    (create detach : ℕ → Bool) (n m : ℤ) {c : ConnectionPool} {q : ThreadPool} {s : System}
    → IsSound 0 c
    → threadpool create detach n m ≡ some q
    → q.thread_number ≤ length c.conn_list
    → Reach (start c q) s
    → AllServed s.shared.served
Reach-AllServed create detach n m {c} {q} sound new few r =
    (Reach-Served (omega (arith, sound.fits)) few (start-Inv c q create detach n m sound new)
      (record {
        number = length-replicate q.thread_number;
        have = AllHave-idle q.thread_number;
        served = tt;
      })
      r).served

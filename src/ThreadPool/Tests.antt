-- ===== src/ThreadPool/Tests.antt =====
-- Runs of the threads, and the theorems there.
use tiny_http.Prelude.{
  ℕ, ◌==◌, ◌≤◌, ◌≡◌, ◌≢◌, refl, true, false, [], ◌∷◌, ◌++◌, length, some, none, done, fault, arith,
}
use tiny_http.Prelude.Int.{pos}
use tiny_http.Locks.{lock, unlock, wait, post}
use tiny_http.ConnectionPool.{ConnectionPool, take_conn}
use tiny_http.ConnectionPool.Laws.{IsSound}
use tiny_http.ThreadPool.{
  ThreadPool, threadpool, enqueue, append, Pc, idle, woken, asking, waiting, reserved, serving,
  releasing, turn,
}
use tiny_http.ThreadPool.Weights.{held_of, count}
use tiny_http.ThreadPool.System.{System, works, adds, posts}
use tiny_http.ThreadPool.System.Invariant.{start, Reach, here, next}
use tiny_http.ThreadPool.System.Safety.{Reach-turn, Reach-order, Reach-exclusive}
use tiny_http.ThreadPool.System.Connected.{AllServed, Reach-AllServed}

abbrev pool : ThreadPool
pool = record {
  thread_number = 2;
  max_requests = 1;
  work_queue = [];
  queue_locked = false;
  queue_stat = 0;
  stop = false;
}

new : threadpool (λ i. true) (λ i. true) (pos 2) (pos 1) ≡ some pool
unfolding threadpool
new = refl

not_new : threadpool (λ i. true) (λ i. i == 0) (pos 2) (pos 1) ≡ none
unfolding threadpool
not_new = refl

abbrev conns : ConnectionPool
conns = record {
  max_conn = 2;
  cur_conn = 0;
  free_conn = 2;
  locked = false;
  conn_list = 10 ∷ 11 ∷ [];
  reserve = 2;
}

conns-IsSound : IsSound 0 conns
conns-IsSound = record {
  free = refl;
  used = refl;
  reserve = refl;
  unlocked = refl;
  fits = omega arith;
}

distinct : (d : ℕ) → count d conns.conn_list ≤ 1
distinct d = ground arith

-- Request 5 is added, and the first thread takes it and serves it with connection 10.
abbrev at_work : System
at_work = record {
  shared = record {
    pool = pool;
    conns = record conns { cur_conn = 1; free_conn = 1; conn_list = 11 ∷ []; reserve = 1 };
    taken = some 5 ∷ [];
    served = (5, some 10) ∷ [];
  };
  threads = releasing (some 10) ∷ idle ∷ [];
  adding = false;
  asked = some 5 ∷ [];
}

at_work-Reach : Reach (start conns pool) at_work
unfolding turn wait post take_conn unlock lock enqueue
at_work-Reach =
    next
      (next
        (next
          (next
            (next
              (next (next (next here (adds (some 5) _ refl refl)) (posts refl))
                (works [] idle woken (idle ∷ []) _ refl refl))
              (works [] woken (asking 5) (idle ∷ []) _ refl refl))
            (works [] (asking 5) (waiting 5) (idle ∷ []) _ refl refl))
          (works [] (waiting 5) (reserved 5) (idle ∷ []) _ refl refl))
        (works [] (reserved 5) (serving 5 (some 10)) (idle ∷ []) _ refl refl))
      (works [] (serving 5 (some 10)) (releasing (some 10)) (idle ∷ []) _ refl refl)

Reach-turn_example :
    (turn at_work.shared idle ≢ fault)
    × (◌≡◌ {A = Pc} idle woken → at_work.shared.pool.work_queue ≢ [])
Reach-turn_example =
    Reach-turn (λ i. true) (λ i. true) (pos 2) (pos 1) conns-IsSound new (releasing (some 10) ∷ [])
      idle [] at_work-Reach refl

Reach-order_example :
    (at_work.shared.taken ++ at_work.shared.pool.work_queue ≡ at_work.asked)
    × (length at_work.shared.pool.work_queue ≤ 2)
Reach-order_example =
    Reach-order (λ i. true) (λ i. true) (pos 2) (pos 1) conns-IsSound new at_work-Reach

Reach-exclusive_example : held_of 10 idle ≡ 0
Reach-exclusive_example =
    Reach-exclusive (λ i. true) (λ i. true) (pos 2) (pos 1) conns-IsSound new []
      (releasing (some 10)) [] idle [] 10 distinct at_work-Reach refl refl

Reach-AllServed_example : AllServed ((5, some 10) ∷ [])
Reach-AllServed_example =
    Reach-AllServed (λ i. true) (λ i. true) (pos 2) (pos 1) conns-IsSound new (omega arith)
      at_work-Reach

-- A queue of at most one request takes two.
takes_two :
    append (record pool { work_queue = some 5 ∷ [] }) (some 6)
    ≡ done (true, record pool { work_queue = some 5 ∷ some 6 ∷ []; queue_stat = 1 })
unfolding append enqueue lock unlock post
takes_two = refl

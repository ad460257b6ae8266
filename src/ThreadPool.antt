-- ===== src/ThreadPool.antt =====
-- version_03/threadpool/threadpool.h: the queue of requests, and the threads that serve them with
-- connections of the pool.
pub mod Weights
pub mod System
mod Tests
use tiny_http.Prelude.{
  ℕ, zero, suc, ◌+◌, ◌≡◌, Bool, true, false, List, [], ◌∷◌, ◌++◌, length, Run, Option, some, none,
  done, ◌>>=◌, ltb, ◌==◌, ◌||◌, if◌then◌else◌,
}
use tiny_http.Prelude.Int.{ℤ, pos, negsuc}
use tiny_http.Locks.{new_sem, wait, post, lock, unlock}
use tiny_http.ConnectionPool.{
  ConnectionPool, is_drained, wait_reserve, take_conn, give_conn, post_reserve,
}

-- `threadpool<T>`; a `T *` that is not NULL is a number.
pub record ThreadPool : Type 0 where
  pub thread_number : ℕ
  pub max_requests : ℕ
  pub work_queue : List (Option ℕ)
  pub queue_locked : Bool
  pub queue_stat : ℕ
  pub stop : Bool

-- The loop of the constructor: whether the thread of each round is created, and detached.
start_threads : (ℕ → Bool) → (ℕ → Bool) → ℕ → ℕ → Bool
start_threads create detach zero i = true
start_threads create detach (suc rounds) i =
    let rest = start_threads create detach rounds (i + 1) in
    if create i then (if detach i then rest else false) else false

-- The constructor; `none` stands for the exception.
unfoldable pub threadpool : (ℕ → Bool) → (ℕ → Bool) → ℤ → ℤ → Option ThreadPool
unfolding start_threads
threadpool create detach (negsuc n) max_requests = none
threadpool create detach (pos n) (negsuc m) = none
threadpool create detach (pos n) (pos m) =
    if n == 0 || m == 0
    then none
    else if start_threads create detach n 0
    then some (record {
      thread_number = n;
      max_requests = m;
      work_queue = [];
      queue_locked = false;
      queue_stat = new_sem;
      stop = false;
    })
    else none

-- The destructor
unfoldable pub destroy : ThreadPool → ThreadPool
destroy p = record p { stop = true }

-- The part of `append` that holds the lock, and whether it adds the request.
unfoldable pub enqueue : ThreadPool → Option ℕ → Run (Bool × ThreadPool)
enqueue p request = do
  let locked = lock p.queue_locked
  let full = ltb p.max_requests (length p.work_queue)
  unlocked ← unlock locked
  done (
      if full
      then (false, record p { queue_locked = unlocked })
      else (true, record p { work_queue = p.work_queue ++ request ∷ []; queue_locked = unlocked }))

-- `m_queuestat.post()`
abbrev pub post_stat : ThreadPool → ThreadPool
post_stat p = record p { queue_stat = post p.queue_stat }

unfoldable pub append : ThreadPool → Option ℕ → Run (Bool × ThreadPool)
append p request = do r ← enqueue p request; done (if r.0 then (true, post_stat r.1) else r)

-- Where a thread stands in `run`, with the variables that are live there.
pub data Pc : Type 0 where
  idle : Pc  -- the test of the loop, and `m_queuestat.wait()`
  woken : Pc  -- behind it
  asking : (request : ℕ) → Pc  -- the first test of `GetConnection`
  waiting : (request : ℕ) → Pc  -- `reserve.wait()`
  reserved : (request : ℕ) → Pc  -- behind it
  serving : (request : ℕ) (con : Option ℕ) → Pc  -- `request->process()`
  releasing : (con : Option ℕ) → Pc  -- `ReleaseConnection`
  posting : Pc  -- `reserve.post()`
  stopped : Pc

-- What the threads share, with the requests taken from the queue so far, and each request that is
-- served with the connection that it has.
pub record Shared : Type 0 where
  pub pool : ThreadPool
  pub conns : ConnectionPool
  pub taken : List (Option ℕ)
  pub served : List (ℕ × Option ℕ)

-- The queue with the lock held, and where the thread goes on.
pop_request : List (Option ℕ) → List (Option ℕ) × List (Option ℕ) × Pc
pop_request [] = ([], [], idle)
pop_request (none ∷ rest) = (none ∷ [], rest, idle)
pop_request (some request ∷ rest) = (some request ∷ [], rest, asking request)

unfoldable pub pop_locked : Shared → Run (Shared × Pc)
unfolding pop_request
pop_locked s = do
  let locked = lock s.pool.queue_locked
  let popped = pop_request s.pool.work_queue
  unlocked ← unlock locked
  done (
    record s {
      pool = record s.pool { work_queue = popped.1; queue_locked = unlocked };
      taken = s.taken ++ popped.0;
    },
    popped.2,
  )

-- `m_queuestat.wait()`, where the thread waits for `none`.
abbrev wait_stat : Shared → Option ℕ → Option (Shared × Pc)
wait_stat s none = none
wait_stat s (some n) = some (record s { pool = record s.pool { queue_stat = n } }, woken)

abbrev wait_conn : Shared → ℕ → Option ConnectionPool → Option (Shared × Pc)
wait_conn s request none = none
wait_conn s request (some c) = some (record s { conns = c }, reserved request)

-- A step of a thread; `none` where it waits. The source reads `m_stop` and the size of the list of
-- connections without a lock, at the same time as other threads write them (for the size, a data
-- race); here each of these reads is one step, and sees the value before or behind a write.
unfoldable pub turn : Shared → Pc → Run (Option (Shared × Pc))
unfolding pop_locked
turn s idle = done (if s.pool.stop then some (s, stopped) else wait_stat s (wait s.pool.queue_stat))
turn s woken = do r ← pop_locked s; done (some r)
turn s (asking request) =
    done (some (s, if is_drained s.conns then serving request none else waiting request))
turn s (waiting request) = done (wait_conn s request (wait_reserve s.conns))
turn s (reserved request) = do
  r ← take_conn s.conns
  done (some (record s { conns = r.1 }, serving request (some r.0)))
turn s (serving request con) =
    done (some (record s { served = s.served ++ (request, con) ∷ [] }, releasing con))
turn s (releasing none) = done (some (s, idle))
turn s (releasing (some con)) = do
  c ← give_conn s.conns con
  done (some (record s { conns = c }, posting))
turn s posting = done (some (record s { conns = post_reserve s.conns }, idle))
turn s stopped = done none

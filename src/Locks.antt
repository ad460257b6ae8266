-- ===== src/Locks.antt =====
-- version_03/lock/lock.h: the semaphore and the mutex, as values.
use tiny_http.Prelude.{
  ℕ, zero, suc, ◌+◌, Bool, true, false, Run, done, fault, Option, some, none, ltb, if◌then◌else◌,
}
use tiny_http.Libc.{int_max}

-- `sem`: its value. `sem(num)`, for the 32 bits of an `int`; `none` where `sem_init` refuses a value
-- beyond SEM_VALUE_MAX, 2^31 - 1, and an exception is thrown
unfoldable pub sem : ℕ → Option ℕ
sem num = if ltb int_max num then none else some num

-- `sem()`
abbrev pub new_sem : ℕ
new_sem = 0

-- `sem::wait`; `none` where the thread has to wait.
unfoldable pub wait : ℕ → Option ℕ
wait zero = none
wait (suc n) = some n

-- `sem::post`
unfoldable pub post : ℕ → ℕ
post n = n + 1

-- `locker`: whether it is locked. A thread goes on from `lock` when it has got the lock.
unfoldable pub lock : Bool → Bool
lock locked = true

-- `locker::unlock`; it is undefined to unlock what is not locked.
unfoldable pub unlock : Bool → Run Bool
unlock true = done false
unlock false = fault

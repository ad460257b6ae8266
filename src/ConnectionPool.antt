-- ===== src/ConnectionPool.antt =====
-- version_03/CGImysql/sql_connection_pool.cpp and sql_connection_pool.h. A `MYSQL *` that is not NULL is
-- a number.
pub mod Laws
mod Tests
use tiny_http.Prelude.{
  ℕ, zero, suc, ◌+◌, ◌-◌, ◌%◌, ◌^◌, Bool, true, false, List, [], ◌∷◌, ◌++◌, length, Run, Option,
  some, none, done, fault, ◌>>=◌, ltb, ◌==◌, if◌then◌else◌,
}
use tiny_http.Libc.{int_max}
use tiny_http.Locks.{sem, new_sem, wait, post, lock, unlock}

-- `connection_pool`, without what `init` is given to connect with.
pub record ConnectionPool : Type 0 where
  pub max_conn : ℕ
  pub cur_conn : ℕ
  pub free_conn : ℕ
  pub locked : Bool
  pub conn_list : List ℕ
  pub reserve : ℕ

-- `++` and `--` of an `unsigned int`
abbrev pub inc32 : ℕ → ℕ
inc32 n = (n + 1) % 2 ^ 32

abbrev pub dec32 : ℕ → ℕ
dec32 n = (n + (2 ^ 32 - 1)) % 2 ^ 32

-- The client library: what `mysql_init` gives in a round, and `mysql_real_connect` for a handle; `none`
-- is NULL.
pub record Mysql : Type 0 where
  pub mysql_init : ℕ → Option ℕ
  pub mysql_real_connect : ℕ → Option ℕ

abbrev pub and_then : {A B : Type 0} → Option A → (A → Option B) → Option B
and_then none f = none
and_then (some a) f = f a

-- The constructor; `max_conn` is not set before `init`.
abbrev pub connection_pool : ConnectionPool
connection_pool = record {
  max_conn = 0;
  cur_conn = 0;
  free_conn = 0;
  locked = false;
  conn_list = [];
  reserve = new_sem;
}

abbrev pub push_back : ConnectionPool → ℕ → ConnectionPool
push_back p con = record p { conn_list = p.conn_list ++ con ∷ []; free_conn = inc32 p.free_conn }

-- The two calls of a round
unfoldable pub open_conn : Mysql → ℕ → Option ℕ
open_conn m i = and_then (m.mysql_init i) m.mysql_real_connect

-- The loop of `init` from round `i` on; `none` is a program that ends, by `exit` or by an exception
-- that nothing catches. The counter is an `int`.
unfoldable pub connect : Mysql → ℕ → ℕ → ConnectionPool → Run (Option ConnectionPool)
connect m zero i p = done (some p)
connect m (suc rounds) i p =
    let next = λ (con : ℕ). connect m rounds (i + 1) (push_back p con) in
    elim (open_conn m i) [ none ↦ done none | some con ↦ if ltb i int_max then next con else fault ]

-- From `reserve = sem(FreeConn)` on
set_reserve : ConnectionPool → Option ℕ → Run (Option ConnectionPool)
set_reserve q none = done none
set_reserve q (some n) = do
  unlocked ← unlock q.locked
  done (some (record q { reserve = n; max_conn = q.free_conn; locked = unlocked }))

connected : Option ConnectionPool → Run (Option ConnectionPool)
unfolding set_reserve
connected none = done none
connected (some q) = set_reserve q (sem q.free_conn)

unfoldable pub init : Mysql → ℕ → ConnectionPool → Run (Option ConnectionPool)
unfolding connected
init m max_conn p = do o ← connect m max_conn 0 (record p { locked = lock p.locked }); connected o

-- `0 == connList.size()`, which is read without the lock
abbrev pub is_drained : ConnectionPool → Bool
is_drained p = length p.conn_list == 0

-- `reserve.wait()`
abbrev pub wait_reserve : ConnectionPool → Option ConnectionPool
wait_reserve p = and_then (wait p.reserve) (λ n. some (record p { reserve = n }))

front : List ℕ → Run (ℕ × List ℕ)
front [] = fault
front (con ∷ rest) = done (con, rest)

-- The part of `GetConnection` that holds the lock; `front` of an empty list is undefined.
unfoldable pub take_conn : ConnectionPool → Run (ℕ × ConnectionPool)
unfolding front
take_conn p = do
  let locked = lock p.locked
  popped ← front p.conn_list
  unlocked ← unlock locked
  done (
    popped.0,
    record p {
      conn_list = popped.1;
      free_conn = dec32 p.free_conn;
      cur_conn = inc32 p.cur_conn;
      locked = unlocked;
    },
  )

-- What `GetConnection` comes to, where no other thread runs in between.
pub data Got : Type 0 where
  null : Got
  waits : Got
  got : ℕ → ConnectionPool → Got

unfoldable pub get_connection : ConnectionPool → Run Got
unfolding take_conn
get_connection p =
    let taken = λ (q : ConnectionPool). (do r ← take_conn q; done (got r.0 r.1)) in
    if is_drained p
    then done null
    else (elim (wait_reserve p) [ none ↦ done waits | some q ↦ taken q ])

-- The part of `ReleaseConnection` that holds the lock.
unfoldable pub give_conn : ConnectionPool → ℕ → Run ConnectionPool
give_conn p con = do
  let locked = lock p.locked
  unlocked ← unlock locked
  done (record (push_back p con) { cur_conn = dec32 p.cur_conn; locked = unlocked })

abbrev pub post_reserve : ConnectionPool → ConnectionPool
post_reserve p = record p { reserve = post p.reserve }

unfoldable pub release_connection : ConnectionPool → Option ℕ → Run (Bool × ConnectionPool)
unfolding give_conn
release_connection p none = done (false, p)
release_connection p (some con) = do q ← give_conn p con; done (true, post_reserve q)

-- `DestroyPool`, with the connections that it closes.
unfoldable pub destroy_pool : ConnectionPool → Run (List ℕ × ConnectionPool)
destroy_pool p =
    let locked = lock p.locked in
    let cleared = (do
      unlocked ← unlock locked
      done (record p { cur_conn = 0; free_conn = 0; conn_list = []; locked = unlocked })) in
    do
      q ← (if ltb 0 (length p.conn_list) then cleared else done (record p { locked = locked }))
      unlocked ← unlock q.locked
      done (p.conn_list, record q { locked = unlocked })

unfoldable pub get_free_conn : ConnectionPool → ℕ
get_free_conn p = p.free_conn

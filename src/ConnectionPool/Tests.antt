-- ===== src/ConnectionPool/Tests.antt =====
-- The pool at concrete inputs.
use tiny_http.Prelude.{
  zero, suc, ◌+◌, ◌≡◌, refl, true, false, [], ◌∷◌, length, some, none, done, fault, arith,
}
use tiny_http.ConnectionPool.{
  ConnectionPool, Mysql, connection_pool, init, got, get_connection, release_connection,
  destroy_pool, open_conn, connect,
}
use tiny_http.ConnectionPool.Laws.{IsSound, init-IsSound, release_connection-get_connection}
use tiny_http.Locks.{sem, lock, unlock}

-- The handle of round `i` is `i + 10`, and it connects.
abbrev mysql : Mysql
mysql = record { mysql_init = λ i. some (i + 10); mysql_real_connect = λ h. some h }

abbrev two : ConnectionPool
two = record {
  max_conn = 2;
  cur_conn = 1;
  free_conn = 2;
  locked = false;
  conn_list = 10 ∷ 11 ∷ [];
  reserve = 2;
}

two-IsSound : IsSound 1 two
two-IsSound = record {
  free = refl;
  used = refl;
  reserve = refl;
  unlocked = refl;
  fits = omega arith;
}

abbrev two_new : ConnectionPool
two_new = record {
  max_conn = 2;
  cur_conn = 0;
  free_conn = 2;
  locked = false;
  conn_list = 10 ∷ 11 ∷ [];
  reserve = 2;
}

init-IsSound_example :
    (p : ConnectionPool) × (init mysql 2 connection_pool ≡ done (some p))
    × IsSound 0 p
    × (length p.conn_list ≡ 2)
    × (p.max_conn ≡ 2)
unfolding open_conn
init-IsSound_example = init-IsSound mysql 2 (omega arith) (λ i h e. cc)

init_two : init mysql 2 connection_pool ≡ done (some two_new)
unfolding init connect open_conn sem lock unlock
init_two = refl

release_connection-get_connection_example :
    (q : ConnectionPool) × (get_connection two ≡ done (got 10 q))
    × IsSound 2 q
    × (release_connection q (some 10) ≡ done (true, record two { conn_list = 11 ∷ 10 ∷ [] }))
release_connection-get_connection_example =
    release_connection-get_connection two 1 10 (11 ∷ []) two-IsSound refl

destroyed : destroy_pool two ≡ fault
unfolding destroy_pool lock unlock
destroyed = refl

-- `mysql_init` fails in the second round.
exits :
    init
      (record mysql { mysql_init = λ i. elim i [ zero ↦ some 10 | suc j ↦ none ] })
      2
      connection_pool
    ≡ done none
unfolding init connect open_conn
exits = refl

-- ===== src/ConnectionPool/Laws.antt =====
-- What the operations of the pool do one after the other.
use tiny_http.Prelude.{
  ℕ, zero, suc, ◌+◌, ◌^◌, ◌<◌, ◌≡◌, ◌≢◌, ◌↔◌, ◌⊎◌, refl, ap, ◌∙◌, true, false, List, [], ◌∷◌, ◌++◌,
  length, length-append, Option, some, none, done, fault, lt→ltb, ltb, ◌≤◌, arith, inl, inr,
}
use tiny_http.Libc.{int_max}
use tiny_http.Locks.{sem, wait, post, lock, unlock}
use tiny_http.ConnectionPool.{
  ConnectionPool, inc32, dec32, Mysql, connection_pool, push_back, open_conn, connect, connected,
  set_reserve, init, is_drained, take_conn, got, get_connection, give_conn, release_connection,
  destroy_pool,
}

-- A pool between two calls, where `out` connections are in use.
pub record IsSound (out : ℕ) (p : ConnectionPool) : Type 0 where
  pub free : p.free_conn ≡ length p.conn_list
  pub used : p.cur_conn ≡ out
  pub reserve : p.reserve ≡ length p.conn_list
  pub unlocked : p.locked ≡ false
  pub fits : length p.conn_list + out < 2 ^ 32

≢none-some : {A : Type 0} (o : Option A) → o ≢ none → (a : A) × (o ≡ some a)
≢none-some none h = absurd (h refl)
≢none-some (some a) h = (a, refl)

length-snoc : (xs : List ℕ) (x : ℕ) → length (xs ++ x ∷ []) ≡ length xs + 1
length-snoc xs x = omega (arith, length-append xs (x ∷ []))

connect_round :
    (m : Mysql) (rounds i con : ℕ) (p : ConnectionPool)
    → open_conn m i ≡ some con
    → i < int_max
    → connect m (suc rounds) i p ≡ connect m rounds (i + 1) (push_back p con)
unfolding connect
connect_round m rounds i con p e h = ground (arith, e)

-- The loop of `init` lets the pool grow by a connection in each round.
connect_lem :
    (m : Mysql) (rounds i : ℕ) (p : ConnectionPool)
    → p.free_conn ≡ length p.conn_list
    → length p.conn_list + rounds ≤ int_max
    → i + rounds ≤ int_max
    → ((k : ℕ) → k < i + rounds → open_conn m k ≢ none)
    → (q : ConnectionPool) × (connect m rounds i p ≡ done (some q))
      × (q.free_conn ≡ length q.conn_list)
      × (length q.conn_list ≡ length p.conn_list + rounds)
      × (q.cur_conn ≡ p.cur_conn)
      × (q.locked ≡ p.locked)
unfolding connect
connect_lem m zero i p f l b opens = (p, refl, f, omega arith, refl, refl)
connect_lem m (suc rounds) i p f l b opens =
    let (con, e) = ≢none-some (open_conn m i) (opens i (omega arith)) in
    let longer = length-snoc p.conn_list con in
    let (q, r, f', l', u, k) =
      connect_lem m rounds (i + 1) (push_back p con) (omega arith) (omega arith) (omega arith)
        λ j h. opens j (omega arith) in
    (q, connect_round m rounds i con p e (omega arith) ∙ r, f', omega arith, u, k)

-- If both calls succeed in every round, for at most 2^31 - 1 connections, init on a new pool
-- returns with that many free connections, none in use, and the semaphore at their number.
pub init-IsSound :
    (m : Mysql) (max_conn : ℕ)
    → max_conn ≤ int_max
    → ((i : ℕ) → i < max_conn → open_conn m i ≢ none)
    → (p : ConnectionPool) × (init m max_conn connection_pool ≡ done (some p))
      × IsSound 0 p
      × (length p.conn_list ≡ max_conn)
      × (p.max_conn ≡ max_conn)
unfolding init connected set_reserve sem lock unlock
init-IsSound m max_conn small opens =
    let (q, e, f, l, u, k) =
      connect_lem m max_conn 0 (record connection_pool { locked = true }) refl (omega arith)
        (omega arith) (λ i h. opens i (omega arith)) in
    let l' : length q.conn_list ≡ max_conn = omega arith in
    let valid : ltb int_max q.free_conn ≡ false = ground arith in
    (
      record q { reserve = q.free_conn; max_conn = q.free_conn; locked = false },
      rw (e, valid, k) refl,
      record { free = f; used = u; reserve = f; unlocked = refl; fits = omega arith },
      l',
      f ∙ l',
    )

-- If a connection is got from a pool with consistent counters and given back at once, it moves from
-- the front of the list to its end; the counters and the semaphore are as before.
pub release_connection-get_connection :
    (p : ConnectionPool) (out con : ℕ) (rest : List ℕ)
    → IsSound out p
    → p.conn_list ≡ con ∷ rest
    → (q : ConnectionPool) × (get_connection p ≡ done (got con q))
      × IsSound (out + 1) q
      × (release_connection q (some con) ≡ done (true, record p { conn_list = rest ++ con ∷ [] }))
unfolding get_connection take_conn wait post lock unlock release_connection give_conn
release_connection-get_connection p out con rest h e =
    let some_there : is_drained p ≡ false = ground (arith, ap length e) in
    let ready : wait p.reserve ≡ some (length rest) = ap wait (h.reserve ∙ ap length e) ∙ refl in
    let size : length p.conn_list ≡ suc (length rest) = ap length e in
    let q : ConnectionPool = record p {
      conn_list = rest;
      free_conn = length rest;
      cur_conn = out + 1;
      reserve = length rest;
    } in
    let fewer : dec32 p.free_conn ≡ length rest = omega (arith, h.free, h.fits) in
    let more : inc32 p.cur_conn ≡ out + 1 = omega (arith, h.used, h.fits) in
    let back : dec32 (out + 1) ≡ p.cur_conn = omega (arith, h.used, h.fits) in
    let again : inc32 (length rest) ≡ p.free_conn = omega (arith, h.free, h.fits) in
    let posted : post (length rest) ≡ p.reserve = omega (arith, h.reserve) in
    (
      q,
      rw (some_there, ready, fewer, more, e, h.unlocked) refl,
      record {
        free = refl;
        used = refl;
        reserve = refl;
        unlocked = h.unlocked;
        fits = omega (arith, h.fits);
      },
      rw (back, again, posted, h.unlocked) refl,
    )

pub List-cases : (xs : List ℕ) → (xs ≡ []) ⊎ ((x : ℕ) × (ys : List ℕ) × (xs ≡ x ∷ ys))
List-cases [] = inl refl
List-cases (x ∷ xs) = inr (x, xs, refl)

-- DestroyPool unlocks twice, which is undefined, exactly if the pool holds a connection.
pub destroy_pool-fault_iff : (p : ConnectionPool) → (destroy_pool p ≡ fault) ↔ (p.conn_list ≢ [])
unfolding destroy_pool unlock lock
destroy_pool-fault_iff p = elim (List-cases p.conn_list) [
  | inl none_there ↦ rw none_there (λ e. cc, λ n. absurd (n refl))
  | inr (con, rest, e) ↦ rw e (λ f n. cc, λ n. rw (lt→ltb 0 (suc (length rest)) (omega arith)) refl)
]

-- ===== src/Server/Loop/Stale.antt =====
-- A timer that a thread of the pool leaves behind.
use tiny_http.Prelude.{
  ℕ, ◌+◌, ◌*◌, ◌<◌, ◌≤◌, ◌≡◌, refl, sym, ◌∙◌, subst, true, false, List, [], ◌∷◌, length, Option,
  some, none, done, arith, ltb, ◌==◌, if◌then◌else◌,
}
use tiny_http.HttpConn.Types.{HttpConn, init_sock}
use tiny_http.TimerList.{UtilTimer, update}
use tiny_http.TimerList.Links.{Node, timer, Links-update, update_self}
use tiny_http.TimerList.Insert.{insert, Holds, add_timer-Holds}
use tiny_http.TimerList.Tick.{expired, tick-Holds}
use tiny_http.Server.{
  max_fd, timeslot, rounds, Server, conn_at, put_conn, cb_func, set_up, call_back, timer_handler,
}
use tiny_http.Server.Own.{length-insert}
use tiny_http.HttpConn.Types.{addfd, init}
use tiny_http.Server.{close_by_worker}
use tiny_http.Server.Loop.{Inv, Lacks-of_empty}

-- No callback opens a connection.
call_back-shut :
    (fds : List ℕ) (s : Server) (fd : ℕ)
    → (s.conns fd).is_open ≡ false
    → ((call_back s fds).conns fd).is_open ≡ false
unfolding call_back cb_func put_conn
call_back-shut [] s fd h = h
call_back-shut (j ∷ fds) s fd h = call_back-shut fds (cb_func s j) fd (ground arith)

first_shut :
    (s : Server) (fd : ℕ) (fds : List ℕ) → ((call_back s (fd ∷ fds)).conns fd).is_open ≡ false
unfolding call_back cb_func put_conn
first_shut s fd fds = call_back-shut fds (cb_func s fd) fd (ground arith)

set_up-live : (c : HttpConn) (fd : ℕ) → (init_sock c fd).is_open ≡ true
unfolding init_sock addfd init
set_up-live c fd = refl

-- The timer that expires first, of a connection, is still in the list after a thread of the pool
-- closes the connection. If accept then gives the same descriptor to a new client, with room for it
-- in the list, timer_handler closes the new client's connection at the old timer's time, before its
-- own.
pub stale_timer :
    (clock now now' : ℕ) (s : Server) (n : Node) (ns : List Node) (address : ℕ)
    → Inv clock s (n ∷ ns)
    → s.timers.cells address ≡ none
    → length (n ∷ ns) < max_fd
    → n.expire ≤ now'
    → now' < now + 3 * timeslot
    → (s1 : Server) × (s2 : Server) × (set_up (close_by_worker s n.user) n.user address now
        ≡ done s1)
      × ((s1.conns n.user).is_open ≡ true)
      × (timer_handler s1 now' ≡ done s2)
      × ((s2.conns n.user).is_open ≡ false)
unfolding set_up put_conn close_by_worker timer_handler
stale_timer clock now now' s n ns address v free room old young =
    let w = close_by_worker s n.user in
    let n' : Node = record { id = address; expire = now + 3 * timeslot; user = n.user } in
    let value : Option UtilTimer = some (timer n' none none) in
    let fresh = record s.timers { cells = update s.timers.cells address value } in
    let lacks = Lacks-of_empty s.timers.cells address none (n ∷ ns) free v.holds.links in
    let before : Holds fresh (n ∷ ns) = record {
      head = v.holds.head;
      tail = v.holds.tail;
      links = Links-update s.timers.cells address value none (n ∷ ns) lacks v.holds.links;
      distinct = v.holds.distinct;
      sorted = v.holds.sorted;
    } in
    let (l, e, h, _) =
      add_timer-Holds rounds fresh n' (n ∷ ns) before (update_self s.timers.cells address value)
        lacks (omega (arith, v.few)) in
    let behind : ltb n'.expire n.expire ≡ false = ground arith in
    let s1 = record (put_conn w n.user (init_sock (conn_at w n.user) n.user)) {
      timers = l;
      timer_of = λ j. if j == n.user then some address else w.timer_of j;
    } in
    let same : insert n' (n ∷ ns) ≡ n ∷ insert n' ns = rw behind refl in
    let h' = subst (Holds l) same h in
    let h1 : Holds (record l { called = [] }) (n ∷ insert n' ns) = record {
      head = h'.head;
      tail = h'.tail;
      links = h'.links;
      distinct = h'.distinct;
      sorted = h'.sorted;
    } in
    let (l2, e2, _, _, called) =
      tick-Holds rounds now' (record l { called = [] }) (n ∷ insert n' ns) h1
        (omega (arith, v.few, length-insert n' ns)) in
    let ready = record s1 { timers = record l2 { called = l.called }; alarms = s.alarms + 1 } in
    let over : ltb now' n.expire ≡ false = ground arith in
    let all : l2.called ≡ n.user ∷ expired now' (insert n' ns) = called ∙ rw over refl in
    (
      s1,
      call_back ready l2.called,
      rw e refl,
      ground (arith, set_up-live (conn_at w n.user) n.user),
      rw e2 refl,
      subst (λ fds. ((call_back ready fds).conns n.user).is_open ≡ false) (sym all)
          (first_shut ready n.user (expired now' (insert n' ns))),
    )

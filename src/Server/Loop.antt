-- ===== src/Server/Loop.antt =====
-- What the branches of the loop keep.
pub mod Handle
pub mod Expiry
pub mod Stale
use tiny_http.Prelude.{
  ℕ, zero, suc, ◌+◌, ◌*◌, ◌<◌, ◌≤◌, ◌≡◌, ◌≢◌, refl, sym, ap, ◌∙◌, subst, Bool, true, false, List,
  [], ◌∷◌, ◌++◌, Bytes, length, length-append, Run, Option, some, none, done, fault, timeout, ◌>>=◌,
  arith, Bool-cases, inl, inr, ltb, leb, lt→ltb, ◌==◌, ◌||◌, if◌then◌else◌,
}
use tiny_http.Prelude.Int.{ℤ, pos, negsuc}
use tiny_http.HttpConn.Types.{HttpConn, init_sock}
use tiny_http.HttpConn.Line.{read_once}
use tiny_http.HttpConn.Send.{Writev, Written, kept, closed, pending, write}
use tiny_http.HttpConn.Send.Open.{Same, write-Same}
use tiny_http.TimerList.{
  TimerList, UtilTimer, Cells, update, or_fault, deref, add_timer, adjust_timer, del_timer, tick,
}
use tiny_http.TimerList.Links.{
  Node, timer, first, Links, Lacks, Distinct, Links-update, update_self,
}
use tiny_http.TimerList.Insert.{insert, Holds, add_timer-Holds}
use tiny_http.TimerList.Split.{end, Links-split}
use tiny_http.TimerList.Delete.{del_timer-Holds}
use tiny_http.TimerList.Adjust.{Linked, AllTo, adjust_timer-Holds}
use tiny_http.TimerList.Split.{append-IsSorted}
use tiny_http.TimerList.Tick.{expired, left, tick-Holds}
use tiny_http.TimerList.Later.{later, Holds-later}
use tiny_http.ThreadPool.{ThreadPool, append, enqueue}
use tiny_http.Locks.{lock, unlock}
use tiny_http.Server.{
  max_fd, timeslot, rounds, Server, conn_at, put_conn, cb_func, set_up, welcome, hang_up, prolong,
  prolong_any, receive, after_write, deliver, call_back, timer_handler, is_busy, show_error,
}
use tiny_http.Server.Own.{
  Own, Timer, Own-Timer, cb_func-Own, call_back-Own, set_up-Own, put_conn-Own, moved-Own,
  length-insert,
}

-- The state between two events, at a time from `clock` on: the timers `ns` are a sorted list, which
-- the open connections own; none runs for more than 15 seconds, and they are no more than MAX_FD.
pub record Inv (clock : ℕ) (s : Server) (ns : List Node) : Type 0 where
  pub own : Own s ns
  pub holds : Holds s.timers ns
  pub soon : AllTo (clock + 3 * timeslot) ns
  pub few : length ns ≤ max_fd

-- A call returns, and what it returns keeps the invariant, with some timers.
abbrev pub Keeps : ℕ → Run Server → Type 0
Keeps clock m = (s : Server) × (ns : List Node) × (m ≡ done s) × Inv clock s ns

AllTo-le : (a b : ℕ) (ns : List Node) → a ≤ b → AllTo a ns → AllTo b ns
AllTo-le a b [] h k = tt
AllTo-le a b (n ∷ ns) h k = (omega (arith, k.0), AllTo-le a b ns h k.1)

AllTo-insert :
    (a : ℕ) (n : Node) (ns : List Node) → n.expire ≤ a → AllTo a ns → AllTo a (insert n ns)
AllTo-insert a n [] h k = (h, tt)
AllTo-insert a n (m ∷ ms) h k = elim (Bool-cases (ltb n.expire m.expire)) [
  | inl sooner ↦ rw sooner (h, k)
  | inr later ↦ rw later (k.0, AllTo-insert a n ms h k.1)
]

AllTo-split : (a : ℕ) (xs ys : List Node) → AllTo a (xs ++ ys) → AllTo a xs × AllTo a ys
AllTo-split a [] ys k = (tt, k)
AllTo-split a (x ∷ xs) ys k = let (p, q) = AllTo-split a xs ys k.1 in ((k.0, p), q)

AllTo-append : (a : ℕ) (xs ys : List Node) → AllTo a xs → AllTo a ys → AllTo a (xs ++ ys)
AllTo-append a [] ys p q = q
AllTo-append a (x ∷ xs) ys p q = (p.0, AllTo-append a xs ys p.1 q)

pub Inv-later :
    (clock now : ℕ) (s : Server) (ns : List Node) → clock ≤ now → Inv clock s ns → Inv now s ns
Inv-later clock now s ns h v = record {
  own = v.own;
  holds = v.holds;
  soon = AllTo-le (clock + 3 * timeslot) (now + 3 * timeslot) ns (omega arith) v.soon;
  few = v.few;
}

Lacks-of_empty :
    (cells : Cells) (k : ℕ) (p : Option ℕ) (ns : List Node)
    → cells k ≡ none
    → Links cells p ns
    → Lacks k ns
Lacks-of_empty cells k p [] e l = tt
Lacks-of_empty cells k p (n ∷ ns) e l =
    (λ same. cc (sym e ∙ ap cells same ∙ l.0), Lacks-of_empty cells k (some n.id) ns e l.1)

-- hang_up of a connection whose timer stands in the middle of the list.
hang_up_at :
    (clock : ℕ) (s : Server) (xs : List Node) (n : Node) (ys : List Node)
    → Inv clock s (xs ++ n ∷ ys)
    → s.timer_of n.user ≡ some n.id
    → Keeps clock (hang_up s n.user)
unfolding hang_up cb_func conn_at put_conn
hang_up_at clock s xs n ys v at =
    let cell = (Links-split s.timers.cells none xs (n ∷ ys) v.holds.links).1.0 in
    let (l, e, h, _) = del_timer-Holds s.timers xs n ys v.holds in
    let (a, b) = AllTo-split (clock + 3 * timeslot) xs (n ∷ ys) v.soon in
    let o = cb_func-Own s xs n ys v.own in
    (
      record (cb_func s n.user) { timers = l },
      xs ++ ys,
      rw (at, cell, e) refl,
      record {
        own = record { count = o.count; each = o.each; points = o.points };
        holds = h;
        soon = AllTo-append (clock + 3 * timeslot) xs ys a b.1;
        few = omega (arith, v.few, length-append xs (n ∷ ys), length-append xs ys);
      },
    )

pub hang_up-Inv :
    (clock : ℕ) (s : Server) (ns : List Node) (fd : ℕ)
    → Inv clock s ns
    → (s.conns fd).is_open ≡ true
    → Keeps clock (hang_up s fd)
hang_up-Inv clock s ns fd v live =
    let t = Own-Timer fd v.own live in
    subst (λ k. Keeps clock (hang_up s k)) t.user
      (hang_up_at clock s t.before t.node t.behind (subst (Inv clock s) t.here v)
        (ap s.timer_of t.user ∙ t.pointer))

prolong_at :
    (clock now : ℕ) (s : Server) (xs : List Node) (n : Node) (ys : List Node)
    → clock ≤ now
    → Inv clock s (xs ++ n ∷ ys)
    → Keeps now (prolong s n.id now)
unfolding prolong
prolong_at clock now s xs n ys le v =
    let limit = now + 3 * timeslot in
    let n' = later n limit in
    let (t, cell, linked) = Holds-later n limit ys s.timers xs v.holds in
    let soon = AllTo-le (clock + 3 * timeslot) limit (xs ++ n ∷ ys) (omega arith) v.soon in
    let (a, b) = AllTo-split limit xs (n ∷ ys) soon in
    let size = length-append xs (n ∷ ys) in
    let (l, e, h, _) =
      adjust_timer-Holds rounds
        (record s.timers {
          cells = update s.timers.cells n.id (some (record t { expire = limit }));
        })
        xs n' ys linked (append-IsSorted xs n ys v.holds.sorted) a (omega (arith, v.few, size)) in
    let o = moved-Own s xs n n' ys refl refl v.own in
    (
      record s { timers = l },
      xs ++ insert n' ys,
      rw (cell, e) refl,
      record {
        own = record { count = o.count; each = o.each; points = o.points };
        holds = h;
        soon = AllTo-append limit xs (insert n' ys) a (AllTo-insert limit n' ys (omega arith) b.1);
        few = omega (arith, v.few, size, length-append xs (insert n' ys), length-insert n' ys);
      },
    )

pub prolong-Inv :
    (clock now : ℕ) (s : Server) (ns : List Node) (fd : ℕ)
    → clock ≤ now
    → Inv clock s ns
    → (s.conns fd).is_open ≡ true
    → Keeps now (prolong_any s (s.timer_of fd) now)
unfolding prolong_any
prolong-Inv clock now s ns fd le v live =
    let t = Own-Timer fd v.own live in
    rw t.pointer (prolong_at clock now s t.before t.node t.behind le (subst (Inv clock s) t.here v))

-- A new connection at a descriptor that was not open, with a timer at a free address.
pub set_up-Inv :
    (clock now : ℕ) (s : Server) (ns : List Node) (connfd address : ℕ)
    → clock ≤ now
    → Inv clock s ns
    → (s.conns connfd).is_open ≡ false
    → s.timers.cells address ≡ none
    → length ns < max_fd
    → Keeps now (set_up s connfd address now)
unfolding set_up put_conn
set_up-Inv clock now s ns connfd address le v shut free room =
    let n : Node = record { id = address; expire = now + 3 * timeslot; user = connfd } in
    let value : Option UtilTimer = some (timer n none none) in
    let fresh = record s.timers { cells = update s.timers.cells address value } in
    let lacks = Lacks-of_empty s.timers.cells address none ns free v.holds.links in
    let before : Holds fresh ns = record {
      head = v.holds.head;
      tail = v.holds.tail;
      links = Links-update s.timers.cells address value none ns lacks v.holds.links;
      distinct = v.holds.distinct;
      sorted = v.holds.sorted;
    } in
    let (l, e, h, _) =
      add_timer-Holds rounds fresh n ns before (update_self s.timers.cells address value) lacks
        (omega arith) in
    (
      record (put_conn s connfd (init_sock (conn_at s connfd) connfd)) {
        timers = l;
        timer_of = λ j. if j == connfd then some address else s.timer_of j;
      },
      insert n ns,
      rw e refl,
      record {
        own = set_up-Own s n ns l shut v.own;
        holds = h;
        soon =
            AllTo-insert (now + 3 * timeslot) n ns (omega arith)
              (AllTo-le (clock + 3 * timeslot) (now + 3 * timeslot) ns (omega arith) v.soon);
        few = omega (arith, length-insert n ns);
      },
    )

call_back-timers : (s : Server) (fds : List ℕ) → (call_back s fds).timers ≡ s.timers
unfolding call_back cb_func put_conn conn_at
call_back-timers s [] = refl
call_back-timers s (fd ∷ fds) = call_back-timers (cb_func s fd) fds

AllTo-left : (a cur : ℕ) (ns : List Node) → AllTo a ns → AllTo a (left cur ns)
AllTo-left a cur [] k = tt
AllTo-left a cur (n ∷ ns) k = elim (Bool-cases (ltb cur n.expire)) [
  | inl still ↦ rw still k
  | inr over ↦ rw over (AllTo-left a cur ns k.1)
]

length-left : (cur : ℕ) (ns : List Node) → length (left cur ns) ≤ length ns
length-left cur [] = omega arith
length-left cur (n ∷ ns) = ground (arith, length-left cur ns)

-- timer_handler closes the connections whose time is over.
pub timer_handler-Inv :
    (clock now : ℕ) (s : Server) (ns : List Node)
    → clock ≤ now
    → Inv clock s ns
    → (s' : Server) × (timer_handler s now ≡ done s') × Inv now s' (left now ns)
unfolding timer_handler
timer_handler-Inv clock now s ns le v =
    let cleared : Holds (record s.timers { called = [] }) ns = record {
      head = v.holds.head;
      tail = v.holds.tail;
      links = v.holds.links;
      distinct = v.holds.distinct;
      sorted = v.holds.sorted;
    } in
    let (l, e, h, _, called) =
      tick-Holds rounds now (record s.timers { called = [] }) ns cleared (omega (arith, v.few)) in
    let s1 = record s { timers = record l { called = s.timers.called }; alarms = s.alarms + 1 } in
    let o =
      call_back-Own s1 now ns
        (record { count = v.own.count; each = v.own.each; points = v.own.points }) in
    let same = call_back-timers s1 l.called in
    (
      call_back s1 l.called,
      rw e refl,
      record {
        own = subst (λ fds. Own (call_back s1 fds) (left now ns)) (sym called) o;
        holds =
            subst (λ t. Holds t (left now ns)) (sym same)
              (record {
                head = h.head;
                tail = h.tail;
                links = h.links;
                distinct = h.distinct;
                sorted = h.sorted;
              });
        soon =
            AllTo-left (now + 3 * timeslot) now ns
              (AllTo-le (clock + 3 * timeslot) (now + 3 * timeslot) ns (omega arith) v.soon);
        few = omega (arith, v.few, length-left now ns);
      },
    )

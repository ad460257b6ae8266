-- ===== src/Server/Loop/Handle.antt =====
-- The loop of the server, from what the kernel reports.
use tiny_http.Prelude.{
  ℕ, ◌<◌, ◌≤◌, ◌≡◌, ◌≢◌, ◌⊎◌, refl, sym, ap, ◌∙◌, Bool, true, false, List, [], ◌∷◌, ◌++◌, Bytes,
  length, Run, Option, some, none, done, arith, Bool-cases, inl, inr, ltb, leb, lt→ltb, ◌==◌,
}
use tiny_http.Prelude.Int.{ℤ, pos}
use tiny_http.HttpConn.Types.{HttpConn}
use tiny_http.HttpConn.Line.{read_once}
use tiny_http.HttpConn.Send.{Writev, Written, kept, closed, pending, write}
use tiny_http.HttpConn.Send.Open.{Same, write-Same}
use tiny_http.TimerList.Links.{Node}
use tiny_http.ThreadPool.{ThreadPool, append, enqueue}
use tiny_http.Locks.{lock, unlock}
use tiny_http.Server.{
  max_fd, Server, conn_at, put_conn, welcome, receive, after_write, deliver, is_busy, show_error,
}
use tiny_http.Server.Own.{put_conn-Own}
use tiny_http.Server.{
  Event, Answers, handle, get_signals, note_signal, signal_loop, sigalrm, sigterm,
}
use tiny_http.Server.Loop.{Inv, Keeps, Inv-later, hang_up-Inv, prolong-Inv, set_up-Inv}

-- What the kernel and the clock answer to an event: the time is not earlier than `clock`; accept gives a
-- descriptor below MAX_FD that is not open, and new an address that holds no timer; an event is for the listening
-- descriptor, for the pipe (for which only reading is reported) or for an open connection; the outcomes of
-- writev that are given let write return, where it is called.
pub record IsFair (listenfd pipefd clock : ℕ) (s : Server) (e : Event) (a : Answers) : Type 0 where
  pub time : clock ≤ a.now
  pub closed_fd : (fd : ℕ) → a.accepted ≡ some fd → (s.conns fd).is_open ≡ false
  pub small_fd : (fd : ℕ) → a.accepted ≡ some fd → fd < max_fd
  pub free : s.timers.cells a.address ≡ none
  pub pipe : e.fd ≡ pipefd → (e.hup ≡ false) × (e.writable ≡ false)
  pub client : e.fd ≢ listenfd → e.fd ≢ pipefd → (s.conns e.fd).is_open ≡ true
  pub returns :
      e.writable ≡ true
      → (w : Written) × (c : HttpConn) × (w ≢ pending)
        × (write a.writes (conn_at s e.fd) ≡ done (w, c))

Keeps-later : {clock now : ℕ} {m : Run Server} → clock ≤ now → Keeps clock m → Keeps now m
Keeps-later {clock} {now} le (s, ns, e, v) = (s, ns, e, Inv-later clock now s ns le v)

-- What else changes is of no account.
Inv-other :
    {clock : ℕ} {s : Server} {ns : List Node} (pool : ThreadPool) (timed_out stop_server : Bool)
    (turned_away : List ℕ)
    → Inv clock s ns
    → Inv clock
        (record s {
          pool = pool;
          timed_out = timed_out;
          stop_server = stop_server;
          turned_away = turned_away;
        })
        ns
Inv-other pool timed_out stop_server turned_away v = record {
  own = record { count = v.own.count; each = v.own.each; points = v.own.points };
  holds = v.holds;
  soon = v.soon;
  few = v.few;
}

put_conn-Inv :
    {clock : ℕ} {s : Server} {ns : List Node} (fd : ℕ) (c : HttpConn)
    → Same (conn_at s fd) c
    → (s.conns fd).is_open ≡ true
    → Inv clock s ns
    → Inv clock (put_conn s fd c) ns × (((put_conn s fd c).conns fd).is_open ≡ true)
unfolding put_conn conn_at
put_conn-Inv {clock} {s} {ns} fd c same live v =
    let o = put_conn-Own s fd c ns same v.own in
    (record { own = o; holds = v.holds; soon = v.soon; few = v.few }, ground (arith, same.0))

room_left : (z : ℤ) (ns : List Node) → z ≡ pos (length ns) → is_busy z ≡ false → length ns < max_fd
room_left z ns e h = let x : leb max_fd (length ns) ≡ false = ap is_busy (sym e) ∙ h in ground arith

append_returns : (p : ThreadPool) (r : Option ℕ) → (x : Bool × ThreadPool) × (append p r ≡ done x)
unfolding append enqueue lock unlock
append_returns p r = (_, refl)

read_once-Same : (c d : HttpConn) (waiting : Option Bytes) → read_once c waiting ≡ some d → Same c d
unfolding read_once
read_once-Same c d none e = cc
read_once-Same c d (some bytes) e = ground arith

Option-cases : {A : Type 0} (o : Option A) → (o ≡ none) ⊎ ((a : A) × (o ≡ some a))
Option-cases none = inl refl
Option-cases (some a) = inr (a, refl)

done-Keeps :
    {clock now : ℕ} {s : Server} {ns : List Node}
    → clock ≤ now
    → Inv clock s ns
    → Keeps now (done s)
done-Keeps {clock} {now} {s} {ns} le v = (s, ns, refl, Inv-later clock now s ns le v)

welcome-Inv :
    (clock now : ℕ) (s : Server) (ns : List Node) (accepted : Option ℕ) (address : ℕ)
    → clock ≤ now
    → Inv clock s ns
    → ((fd : ℕ) → accepted ≡ some fd → (s.conns fd).is_open ≡ false)
    → ((fd : ℕ) → accepted ≡ some fd → fd < max_fd)
    → s.timers.cells address ≡ none
    → Keeps now (welcome s accepted address now)
unfolding welcome show_error
welcome-Inv clock now s ns none address le v shut small free = done-Keeps le v
welcome-Inv clock now s ns (some fd) address le v shut small free =
    elim (Bool-cases (is_busy s.user_count)) [
      | inl busy ↦
          rw busy (
            done-Keeps le (Inv-other s.pool s.timed_out s.stop_server (s.turned_away ++ fd ∷ []) v))
      | inr room ↦
          let inside : ltb fd max_fd ≡ true = lt→ltb fd max_fd (small fd refl) in
          rw (room, inside)
            (set_up-Inv clock now s ns fd address le v (shut fd refl) free
              (room_left s.user_count ns v.own.count room))
    ]

receive-Inv :
    (clock now : ℕ) (s : Server) (ns : List Node) (fd : ℕ) (waiting : Option Bytes)
    → clock ≤ now
    → Inv clock s ns
    → (s.conns fd).is_open ≡ true
    → Keeps now (receive s fd waiting now)
unfolding receive
receive-Inv clock now s ns fd waiting le v live =
    elim (Option-cases (read_once (conn_at s fd) waiting)) [
      | inl failed ↦ rw (failed, receive) (Keeps-later le (hang_up-Inv clock s ns fd v live))
      | inr (c, e) ↦
          let (v1, live1) = put_conn-Inv fd c (read_once-Same (conn_at s fd) c waiting e) live v in
          let s1 = put_conn s fd c in
          let (added, ea) = append_returns s1.pool (some fd) in
          let v2 = Inv-other added.1 s1.timed_out s1.stop_server s1.turned_away v1 in
          rw (e, receive, ea)
            (prolong-Inv clock now (record s1 { pool = added.1 }) ns fd le v2 live1)
    ]

deliver-Inv :
    (clock now : ℕ) (s : Server) (ns : List Node) (fd : ℕ) (events : List Writev) (w : Written)
    (c : HttpConn)
    → clock ≤ now
    → Inv clock s ns
    → (s.conns fd).is_open ≡ true
    → w ≢ pending
    → write events (conn_at s fd) ≡ done (w, c)
    → Keeps now (deliver s fd events now)
unfolding deliver after_write
deliver-Inv clock now s ns fd events pending c le v live p e = absurd (p refl)
deliver-Inv clock now s ns fd events kept c le v live p e =
    let (v1, live1) = put_conn-Inv fd c (write-Same events (conn_at s fd) e) live v in
    rw e (prolong-Inv clock now (put_conn s fd c) ns fd le v1 live1)
deliver-Inv clock now s ns fd events closed c le v live p e =
    let (v1, live1) = put_conn-Inv fd c (write-Same events (conn_at s fd) e) live v in
    rw e (Keeps-later le (hang_up-Inv clock (put_conn s fd c) ns fd v1 live1))

note_signal-Inv :
    (clock : ℕ) (s : Server) (ns : List Node) (n : ℕ)
    → Inv clock s ns
    → Inv clock (note_signal s n) ns
unfolding note_signal
note_signal-Inv clock s ns n v = elim (Bool-cases (n == sigalrm)) [
  | inl alarm ↦ rw alarm (Inv-other s.pool true s.stop_server s.turned_away v)
  | inr other ↦ elim (Bool-cases (n == sigterm)) [
    | inl term ↦ rw (other, term) (Inv-other s.pool s.timed_out true s.turned_away v)
    | inr ignored ↦ rw (other, ignored) v
  ]
]

signal_loop-Inv :
    (signals : Bytes) (clock : ℕ) (s : Server) (ns : List Node)
    → Inv clock s ns
    → Inv clock (signal_loop s signals) ns
unfolding signal_loop
signal_loop-Inv [] clock s ns v = v
signal_loop-Inv (n ∷ signals) clock s ns v =
    signal_loop-Inv signals clock (note_signal s n) ns (note_signal-Inv clock s ns n v)

get_signals-Inv :
    (clock : ℕ) (s : Server) (ns : List Node) (signals : Option Bytes)
    → Inv clock s ns
    → Inv clock (get_signals s signals) ns
unfolding get_signals
get_signals-Inv clock s ns none v = v
get_signals-Inv clock s ns (some signals) v = signal_loop-Inv signals clock s ns v

-- For an event and answers of the system that are fair (the time is not earlier, accept gives a
-- descriptor below MAX_FD that is not open, new gives a free address, an event is for the listening
-- descriptor, the pipe or an open connection, writev lets write return where it is called): the
-- body of the event loop returns, and afterwards again each open connection has exactly one timer
-- in the sorted list, a closed one none, m_user_count is the number of timers and at most MAX_FD,
-- and no timer runs for more than 15 seconds.
pub handle-Inv :
    (listenfd pipefd clock : ℕ) (s : Server) (ns : List Node) (e : Event) (a : Answers)
    → Inv clock s ns
    → IsFair listenfd pipefd clock s e a
    → Keeps a.now (handle listenfd pipefd s e a)
unfolding handle
handle-Inv listenfd pipefd clock s ns e a v f = elim (Bool-cases (e.fd == listenfd)) [
  | inl listening ↦
      rw listening
        (welcome-Inv clock a.now s ns a.accepted a.address f.time v f.closed_fd f.small_fd f.free)
  | inr l ↦ elim (Bool-cases (e.fd == pipefd)) [
    | inl at_pipe ↦
        let (no_hup, no_out) = f.pipe (ground arith) in
        elim (Bool-cases e.readable) [
          | inl i ↦
              rw (l, no_hup, at_pipe, i)
                (done-Keeps f.time (get_signals-Inv clock s ns a.signals v))
          | inr i ↦ rw (l, no_hup, at_pipe, i, no_out) (done-Keeps f.time v)
        ]
    | inr o ↦
        let live = f.client (ground arith) (ground arith) in
        elim (Bool-cases e.hup) [
          | inl h ↦ rw (l, h) (Keeps-later f.time (hang_up-Inv clock s ns e.fd v live))
          | inr h ↦ elim (Bool-cases e.readable) [
            | inl i ↦ rw (l, h, o, i) (receive-Inv clock a.now s ns e.fd a.received f.time v live)
            | inr i ↦ elim (Bool-cases e.writable) [
              | inl x ↦
                  let (w, c, p, r) = f.returns x in
                  rw (l, h, o, i, x)
                    (deliver-Inv clock a.now s ns e.fd a.writes w c f.time v live p r)
              | inr x ↦ rw (l, h, o, i, x) (done-Keeps f.time v)
            ]
          ]
        ]
  ]
]

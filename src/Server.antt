-- ===== src/Server.antt =====
-- version_03/main.cpp: the event loop, with the connections, the timers and the queue of requests. It
-- is the level-triggered variant, which the defines select.
pub mod Own
pub mod Loop
mod Tests
use tiny_http.Prelude.{
  ℕ, zero, suc, ◌+◌, ◌*◌, ◌≡◌, Bool, true, false, List, [], ◌∷◌, ◌++◌, Bytes, length, Run, Option,
  some, none, done, fault, timeout, ◌>>=◌, leb, ltb, ◌==◌, ◌&&◌, ◌||◌, if◌then◌else◌, codes,
}
use tiny_http.Prelude.Int.{ℤ, pos, negsuc}
use tiny_http.HttpConn.Types.{HttpConn, init_sock, close_conn, minus_one}
use tiny_http.HttpConn.Line.{read_once}
use tiny_http.HttpConn.Send.{Writev, Written, kept, closed, pending, write}
use tiny_http.TimerList.{
  TimerList, UtilTimer, Cells, update, or_fault, deref, add_timer, adjust_timer, del_timer, tick,
}
use tiny_http.ThreadPool.{ThreadPool, append}

abbrev pub max_fd : ℕ
max_fd = 65536

abbrev pub timeslot : ℕ
timeslot = 5

-- The rounds for a loop over the timers.
abbrev pub rounds : ℕ
rounds = max_fd + 1

-- The variables of `main`, and what it shares with the other components. `conns` is the array `users`,
-- where the static `m_user_count` stands here; `timer_of` is the field `timer` in the array `users_timer`,
-- whose field `sockfd` is the index of its element once it is set. `alarms` counts the calls of `alarm`,
-- and `turned_away` holds the descriptors that `show_error` was called for.
pub record Server : Type 0 where
  pub conns : ℕ → HttpConn
  pub user_count : ℤ
  pub timer_of : ℕ → Option ℕ
  pub timers : TimerList
  pub pool : ThreadPool
  pub timed_out : Bool
  pub stop_server : Bool
  pub alarms : ℕ
  pub turned_away : List ℕ

-- `users[fd]`
unfoldable pub conn_at : Server → ℕ → HttpConn
conn_at s fd = record (s.conns fd) { user_count = s.user_count }

unfoldable pub put_conn : Server → ℕ → HttpConn → Server
put_conn s fd c = record s {
  conns = λ j. if j == fd then c else s.conns j;
  user_count = c.user_count;
}

-- `cb_func` of `&users_timer[fd]`
unfoldable pub cb_func : Server → ℕ → Server
unfolding conn_at put_conn
cb_func s fd =
    let c = conn_at s fd in
    put_conn s fd (record c { watch = none; is_open = false; user_count = minus_one c.user_count })

-- What a thread of the pool leaves where `process` calls `close_conn`.
unfoldable pub close_by_worker : Server → ℕ → Server
unfolding conn_at put_conn close_conn
close_by_worker s fd = put_conn s fd (close_conn (conn_at s fd))

unfoldable pub show_error : Server → ℕ → Server
show_error s connfd = record s { turned_away = s.turned_away ++ connfd ∷ [] }

-- `http_conn::m_user_count >= MAX_FD`
abbrev pub is_busy : ℤ → Bool
is_busy (pos n) = leb max_fd n
is_busy (negsuc n) = false

-- What a new connection gets: `address` is where `new util_timer` is, and `now` the time.
unfoldable pub set_up : Server → ℕ → ℕ → ℕ → Run Server
set_up s connfd address now =
    let timer : UtilTimer = record {
      expire = now + 3 * timeslot;
      user = connfd;
      prev = none;
      next = none;
    } in
    let s1 = put_conn s connfd (init_sock (conn_at s connfd) connfd) in
    let fresh = record s1.timers { cells = update s1.timers.cells address (some timer) } in
    do
      timers ← add_timer rounds fresh address
      done (record s1 {
        timers = timers;
        timer_of = λ j. if j == connfd then some address else s1.timer_of j;
      })

-- The branch of the listening descriptor; `none` stands for an `accept` that fails. A descriptor of
-- MAX_FD or more is behind the arrays.
unfoldable pub welcome : Server → Option ℕ → ℕ → ℕ → Run Server
welcome s none address now = done s
welcome s (some connfd) address now =
    let fits = if ltb connfd max_fd then set_up s connfd address now else fault in
    if is_busy s.user_count then done (show_error s connfd) else fits

-- The callback of the connection's timer, and `del_timer`; the callback is called through the timer.
unfoldable pub hang_up : Server → ℕ → Run Server
hang_up s fd = do
  address ← or_fault (s.timer_of fd)
  timer ← deref s.timers.cells address
  let s1 = cb_func s fd
  timers ← del_timer s1.timers address
  done (record s1 { timers = timers })

-- `timer->expire = cur + 3 * TIMESLOT; timer_lst.adjust_timer(timer)`
unfoldable pub prolong : Server → ℕ → ℕ → Run Server
prolong s address now = do
  timer ← deref s.timers.cells address
  let later = record timer { expire = now + 3 * timeslot }
  timers ←
      adjust_timer rounds (record s.timers { cells = update s.timers.cells address (some later) })
        address
  done (record s { timers = timers })

-- `if (timer)`
unfoldable pub prolong_any : Server → Option ℕ → ℕ → Run Server
prolong_any s none now = done s
prolong_any s (some address) now = prolong s address now

-- The branch of EPOLLIN; `waiting` is what `recv` meets.
unfoldable pub receive : Server → ℕ → Option Bytes → ℕ → Run Server
receive s fd waiting now = elim (read_once (conn_at s fd) waiting) [
  | none ↦ hang_up s fd
  | some c ↦ do
    let s1 = put_conn s fd c
    added ← append s1.pool (some fd)
    prolong_any (record s1 { pool = added.1 }) (s1.timer_of fd) now
]

after_write : Server → ℕ → ℕ → Written → HttpConn → Run Server
after_write s fd now kept c = let s1 = put_conn s fd c in prolong_any s1 (s1.timer_of fd) now
after_write s fd now closed c = hang_up (put_conn s fd c) fd
after_write s fd now pending c = timeout

-- The branch of EPOLLOUT; the outcomes of `writev` are given.
unfoldable pub deliver : Server → ℕ → List Writev → ℕ → Run Server
unfolding after_write
deliver s fd events now = do r ← write events (conn_at s fd); after_write s fd now r.0 r.1

abbrev pub sigalrm : ℕ
sigalrm = 14

abbrev pub sigterm : ℕ
sigterm = 15

-- `switch (signals[i])`
unfoldable pub note_signal : Server → ℕ → Server
note_signal s n =
    if n == sigalrm
    then record s { timed_out = true }
    else if n == sigterm
    then record s { stop_server = true }
    else s

-- The loop over the signals.
unfoldable pub signal_loop : Server → Bytes → Server
signal_loop s [] = s
signal_loop s (n ∷ ns) = signal_loop (note_signal s n) ns

-- The branch of the pipe; `none` stands for a `recv` that fails. `recv` takes 1024 bytes at most.
unfoldable pub get_signals : Server → Option Bytes → Server
get_signals s none = s
get_signals s (some signals) = signal_loop s signals

-- `epoll_event`: `hup` for EPOLLRDHUP, EPOLLHUP or EPOLLERR.
pub record Event : Type 0 where
  pub fd : ℕ
  pub hup : Bool
  pub readable : Bool
  pub writable : Bool

-- What the calls that an event leads to give.
pub record Answers : Type 0 where
  pub accepted : Option ℕ
  pub address : ℕ
  pub now : ℕ
  pub received : Option Bytes
  pub writes : List Writev
  pub signals : Option Bytes

-- The body of the loop over the events.
unfoldable pub handle : ℕ → ℕ → Server → Event → Answers → Run Server
handle listenfd pipefd s e a =
    if e.fd == listenfd
    then welcome s a.accepted a.address a.now
    else if e.hup
    then hang_up s e.fd
    else if e.fd == pipefd && e.readable
    then done (get_signals s a.signals)
    else if e.readable
    then receive s e.fd a.received a.now
    else if e.writable
    then deliver s e.fd a.writes a.now
    else done s

unfoldable pub handle_all : ℕ → ℕ → Server → List (Event × Answers) → Run Server
handle_all listenfd pipefd s [] = done s
handle_all listenfd pipefd s ((e, a) ∷ events) = do
  s1 ← handle listenfd pipefd s e a
  handle_all listenfd pipefd s1 events

-- The callbacks that `tick` has called, in order.
unfoldable pub call_back : Server → List ℕ → Server
call_back s [] = s
call_back s (fd ∷ fds) = call_back (cb_func s fd) fds

-- `timer_handler` at the time `now`
unfoldable pub timer_handler : Server → ℕ → Run Server
timer_handler s now = do
  timers ← tick rounds now (record s.timers { called = [] })
  let s1 = record s { timers = record timers { called = s.timers.called }; alarms = s.alarms + 1 }
  done (call_back s1 timers.called)

-- `if (timeout)`
unfoldable pub check_timeout : Server → ℕ → Run Server
check_timeout s now =
    let handled = (do s1 ← timer_handler s now; done (record s1 { timed_out = false })) in
    if s.timed_out then handled else done s

-- The loop of `main`: each call of `epoll_wait` gives its events and the time behind them, or `none`
-- where it fails for another reason than a signal; behind the last call the server waits.
unfoldable pub serve : ℕ → ℕ → Server → List (Option (List (Event × Answers) × ℕ)) → Run Server
serve listenfd pipefd s [] = done s
serve listenfd pipefd s (none ∷ waits) = done s
serve listenfd pipefd s (some (events, now) ∷ waits) = do
  s1 ← handle_all listenfd pipefd s events
  s2 ← check_timeout s1 now
  let rest = serve listenfd pipefd s2 waits
  if s2.stop_server then done s2 else rest

-- ===== src/Server/Tests.antt =====
-- Runs of the server, and the theorems there.
use tiny_http.Prelude.{
  ◌≡◌, refl, true, false, [], ◌∷◌, some, none, done, arith, ◌==◌, if◌then◌else◌,
}
use tiny_http.Prelude.Int.{pos}
use tiny_http.HttpConn.Types.{HttpConn, check_state_requestline, get, epollin}
use tiny_http.TimerList.{update}
use tiny_http.TimerList.Links.{Node, timer}
use tiny_http.Server.{
  Server, close_by_worker, set_up, timer_handler, Event, Answers, handle, note_signal, get_signals,
  signal_loop,
}
use tiny_http.Server.Loop.{Inv, Keeps}
use tiny_http.Server.Loop.Handle.{IsFair, handle-Inv}
use tiny_http.Server.Loop.Expiry.{timer_handler_closes}
use tiny_http.Server.Loop.Stale.{stale_timer}

abbrev unused : HttpConn
unused = record {
  sockfd = none;
  user_count = pos 0;
  watch = none;
  is_open = false;
  nonblocking = false;
  output = [];
  read_buf = [];
  read_idx = 0;
  checked_idx = 0;
  start_line = 0;
  write_buf = [];
  check_state = check_state_requestline;
  method = get;
  real_file = [];
  url = none;
  version = none;
  host = none;
  content_length = pos 0;
  linger = false;
  file = none;
  iv0 = record { base = 0; len = 0 };
  iv1 = record { base = 0; len = 0 };
  iv_count = 0;
  cgi = false;
  string = none;
  bytes_to_send = 0;
  bytes_have_send = 0;
}

abbrev client : HttpConn
client = record unused {
  sockfd = some 7;
  watch = some (record { event = epollin; one_shot = true });
  is_open = true;
}

abbrev node : Node
node = record { id = 1; expire = 115; user = 7 }

-- Descriptor 7 is open, and its timer, which expires at 115, stands at address 1.
abbrev one_client : Server
one_client = record {
  conns = λ j. if j == 7 then client else unused;
  user_count = pos 1;
  timer_of = λ j. if j == 7 then some 1 else none;
  timers = record {
    head = some 1;
    tail = some 1;
    cells = update (λ k. none) 1 (some (timer node none none));
    called = [];
  };
  pool = record {
    thread_number = 8;
    max_requests = 10000;
    work_queue = [];
    queue_locked = false;
    queue_stat = 0;
    stop = false;
  };
  timed_out = false;
  stop_server = false;
  alarms = 1;
  turned_away = [];
}

one_client-Inv : Inv 100 one_client (node ∷ [])
one_client-Inv = record {
  own = record { count = refl; each = λ fd. ground arith; points = (refl, tt) };
  holds = record {
    head = refl;
    tail = refl;
    links = (refl, tt);
    distinct = (tt, tt);
    sorted = (tt, tt);
  };
  soon = (omega arith, tt);
  few = omega arith;
}

-- A second client comes at the time 105.
abbrev coming : Event
coming = record { fd = 3; hup = false; readable = true; writable = false }

abbrev answers : Answers
answers = record {
  accepted = some 8;
  address = 2;
  now = 105;
  received = none;
  writes = [];
  signals = none;
}

coming-IsFair : IsFair 3 4 100 one_client coming answers
coming-IsFair = record {
  time = omega arith;
  closed_fd = λ fd e. ground arith;
  small_fd = λ fd e. ground arith;
  free = refl;
  pipe = λ e. absurd (omega arith);
  client = λ n. absurd (n refl);
  returns = λ e. cc;
}

handle-Inv_example : Keeps 105 (handle 3 4 one_client coming answers)
handle-Inv_example =
    handle-Inv 3 4 100 one_client (node ∷ []) coming answers one_client-Inv coming-IsFair

timer_handler_closes_example :
    (s' : Server) × (timer_handler one_client 115 ≡ done s')
    × Inv 115 s' []
    × ((s'.conns 7).is_open ≡ false)
timer_handler_closes_example =
    timer_handler_closes 100 115 one_client [] node [] (omega arith) one_client-Inv

stale_timer_example :
    (s1 : Server) × (s2 : Server) × (set_up (close_by_worker one_client 7) 7 2 110 ≡ done s1)
    × ((s1.conns 7).is_open ≡ true)
    × (timer_handler s1 120 ≡ done s2)
    × ((s2.conns 7).is_open ≡ false)
stale_timer_example =
    stale_timer 100 110 120 one_client node [] 2 one_client-Inv refl (omega arith) (omega arith)
      (omega arith)

-- SIGTERM and SIGALRM.
signals :
    get_signals one_client (some (15 ∷ 14 ∷ []))
    ≡ record one_client { timed_out = true; stop_server = true }
unfolding get_signals signal_loop note_signal
signals = refl

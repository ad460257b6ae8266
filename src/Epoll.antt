-- ===== src/Epoll.antt =====
-- version_02/bin/epoll.c and epoll.h: one client of an epoll instance.
pub mod Interest
use tiny_http.Prelude.{ℕ, Bool, true, false, List, [], ◌∷◌, ◌++◌, Option, none, some, Bytes, String}

-- `http_request_t`; the arrays hold strings
pub record HttpRequest : Type 0 where
  pub fd : ℕ
  pub alive : Bool
  pub method : Bytes
  pub url : Bytes
  pub ip_port : Bytes

pub data Event : Type 0 where
  epollin epollout : Event

-- A message that `push_log` gets: its text without the error's name, and its grade.
pub record LogEntry : Type 0 where
  pub text : Bytes
  pub grade : ℕ

-- A client: its request, what the epoll instance watches its socket for (nothing, if it is not
-- registered), whether the descriptor is open, blocking, what was sent, and the log.
pub record Client : Type 0 where
  pub request : HttpRequest
  pub interest : Option Event
  pub is_open : Bool
  pub nonblocking : Bool
  pub output : Bytes
  pub log : List LogEntry

-- The operations of the system call `epoll_ctl`.
pub data CtlOp : Type 0 where
  ctl_add ctl_mod : CtlOp

-- `epoll_ctl` for one descriptor: what is watched afterwards, and whether it succeeded. Adding a
-- descriptor that is registered fails, and so does changing one that is not.
unfoldable pub epoll_ctl : CtlOp → Event → Option Event → Option Event × Bool
epoll_ctl ctl_add e none = (some e, true)
epoll_ctl ctl_add e (some old) = (some old, false)
epoll_ctl ctl_mod e none = (none, false)
epoll_ctl ctl_mod e (some old) = (some e, true)

-- `fcntl` succeeds on an open descriptor.
unfoldable pub set_sock_nonblock : Client → Client
set_sock_nonblock c = record c { nonblocking = true }

-- The failure of `epoll_ctl` is only printed.
unfoldable pub epoll_add : Client → Event → Client
unfolding epoll_ctl set_sock_nonblock
epoll_add c e =
    let c' = set_sock_nonblock c in record c' { interest = (epoll_ctl ctl_add e c'.interest).0 }

-- The source passes EPOLL_CTL_ADD here.
unfoldable pub epoll_del : Client → Event → Client
unfolding epoll_ctl
epoll_del c e = record c { interest = (epoll_ctl ctl_add e c.interest).0 }

unfoldable pub epoll_mod : Client → Event → Client
unfolding epoll_ctl
epoll_mod c e = record c { interest = (epoll_ctl ctl_mod e c.interest).0 }

-- `close` of the descriptor also takes it out of the epoll instance.
unfoldable pub close : Client → Client
close c = record c { is_open = false; interest = none }

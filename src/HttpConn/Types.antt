-- ===== src/HttpConn/Types.antt =====
-- The data of version_03/http/http_conn.h, and the functions that set a connection up and close it.
use tiny_http.Prelude.{ℕ, zero, suc, Bool, true, false, [], Bytes, Option, some, none, replicate}
use tiny_http.Prelude.Int.{ℤ, pos, negsuc}
use tiny_http.Libc.{Buf}

abbrev pub filename_len : ℕ
filename_len = 200

abbrev pub read_buffer_size : ℕ
read_buffer_size = 2048

abbrev pub write_buffer_size : ℕ
write_buffer_size = 1024

-- `METHOD`; the source sets no other.
pub data Method : Type 0 where
  get post : Method

-- `CHECK_STATE`
pub data CheckState : Type 0 where
  check_state_requestline check_state_header check_state_content : CheckState

-- `HTTP_CODE`
pub data HttpCode : Type 0 where
  no_request get_request bad_request no_resource forbidden_request file_request internal_error
        closed_connection :
      HttpCode

-- `LINE_STATUS`
pub data LineStatus : Type 0 where
  line_ok line_bad line_open : LineStatus

-- `struct iovec`: `base` counts from the start of its buffer.
pub record Iovec : Type 0 where
  pub base : ℕ
  pub len : ℕ

-- What the epoll instance watches a descriptor for, beside EPOLLRDHUP.
pub data Event : Type 0 where
  epollin epollout : Event

pub record Watch : Type 0 where
  pub event : Event
  pub one_shot : Bool

-- `http_conn`, with its static members. `sockfd` is `none` for -1. `m_url`, `m_version`, `m_host` and
-- `m_string` point into `m_read_buf`, so that each is an index, `none` for NULL. `write_buf` is the
-- first `m_write_idx` bytes of `m_write_buf`, `real_file` the string in `m_real_file`, and `file` what
-- `m_file_address` maps, whose length is `m_file_stat.st_size`. Of the world outside: what the epoll
-- instance watches the descriptor for, if it is registered, whether it is open, whether it does not
-- block, and the bytes sent on it.
pub record HttpConn : Type 0 where
  pub sockfd : Option ℕ
  pub user_count : ℤ
  pub watch : Option Watch
  pub is_open : Bool
  pub nonblocking : Bool
  pub output : Bytes
  pub read_buf : Buf
  pub read_idx : ℕ
  pub checked_idx : ℕ
  pub start_line : ℕ
  pub write_buf : Bytes
  pub check_state : CheckState
  pub method : Method
  pub real_file : Bytes
  pub url : Option ℕ
  pub version : Option ℕ
  pub host : Option ℕ
  pub content_length : ℤ
  pub linger : Bool
  pub file : Option Bytes
  pub iv0 : Iovec
  pub iv1 : Iovec
  pub iv_count : ℕ
  pub cgi : Bool
  pub string : Option ℕ
  -- an `int`, by the 32 bits that hold it
  pub bytes_to_send : ℕ
  pub bytes_have_send : ℕ

unfoldable pub setnonblocking : HttpConn → HttpConn
setnonblocking c = record c { nonblocking = true }

-- `addfd` for the descriptor `fd`, which is not registered yet
unfoldable pub addfd : HttpConn → Bool → HttpConn
unfolding setnonblocking
addfd c one_shot =
    setnonblocking (record c { watch = some (record { event = epollin; one_shot = one_shot }) })

-- `removefd` for the descriptor of the connection
unfoldable pub removefd : HttpConn → HttpConn
removefd c = record c { watch = none; is_open = false }

-- `epoll_ctl` with EPOLL_CTL_MOD: it fails for a descriptor that is not registered, -1 among them.
abbrev rewatch : Option ℕ → Option Watch → Event → Option Watch
rewatch none old e = old
rewatch (some fd) none e = none
rewatch (some fd) (some old) e = some (record { event = e; one_shot = true })

unfoldable pub modfd : HttpConn → Event → HttpConn
modfd c e = record c { watch = rewatch c.sockfd c.watch e }

abbrev pub minus_one : ℤ → ℤ
minus_one (pos zero) = negsuc 0
minus_one (pos (suc n)) = pos n
minus_one (negsuc n) = negsuc (suc n)

abbrev pub plus_one : ℤ → ℤ
plus_one (pos n) = pos (suc n)
plus_one (negsuc zero) = pos 0
plus_one (negsuc (suc n)) = negsuc n

close_socket : HttpConn → Option ℕ → HttpConn
unfolding removefd
close_socket c none = c
close_socket c (some fd) =
    let c' = removefd c in record c' { sockfd = none; user_count = minus_one c'.user_count }

-- `close_conn` with its default argument
unfoldable pub close_conn : HttpConn → HttpConn
unfolding close_socket
close_conn c = close_socket c c.sockfd

-- `init()`
unfoldable pub init : HttpConn → HttpConn
init c = record c {
  bytes_to_send = 0;
  bytes_have_send = 0;
  check_state = check_state_requestline;
  linger = false;
  method = get;
  url = none;
  version = none;
  content_length = pos 0;
  host = none;
  start_line = 0;
  checked_idx = 0;
  read_idx = 0;
  cgi = false;
  read_buf = replicate read_buffer_size 0;
  write_buf = [];
  real_file = [];
}

-- `init(sockfd, addr)`; accept has just opened the descriptor.
unfoldable pub init_sock : HttpConn → ℕ → HttpConn
unfolding addfd init
init_sock c fd =
    let opened = record c { sockfd = some fd; is_open = true; watch = none; output = [] } in
    let added = addfd opened true in init (record added { user_count = plus_one added.user_count })

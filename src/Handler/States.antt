-- ===== src/Handler/States.antt =====
-- The client that version_02 accepts, and one whose `recv` fails.
use tiny_http.Prelude.{
  ℕ, ◌-◌, ◌^◌, ◌≡◌, true, false, [], ◌∷◌, ◌++◌, Bytes, none, done, >>=-eq-done, arith,
}
use tiny_http.Libc.{Buf}
use tiny_http.Epoll.{HttpRequest, epollin, Client, epoll_add, epoll_mod}
use tiny_http.Handler.{failed, recv_http, get_url_method}

-- The client that `main` of http.c makes of an accepted descriptor, with the line that `sprintf`
-- puts into `ip_port`, which is also logged. The other strings are not set before the first request
-- is read.
unfoldable pub accept_client : ℕ → Bytes → Bytes → Bytes → Client
accept_client fd method url ip_port =
    let request : HttpRequest = record {
      fd = fd;
      alive = false;
      method = method;
      url = url;
      ip_port = ip_port;
    } in
    let c : Client = record {
      request = request;
      interest = none;
      is_open = true;
      nonblocking = false;
      output = [];
      log = [];
    } in
    let watched = epoll_add c epollin in
    record watched { log = watched.log ++ record { text = ip_port; grade = 0 } ∷ [] }

-- A failed recv is not told from received bytes: if the parse of the unset buffer returns, the
-- client is as open as before and nothing is logged.
pub recv_http_failed :
    (c : Client) (buf : Buf) {c' : Client}
    → recv_http c failed buf ≡ done c'
    → (c'.is_open ≡ c.is_open) × (c'.log ≡ c.log)
unfolding recv_http epoll_mod
recv_http_failed c buf e =
    let (p, ep, f) = >>=-eq-done (get_url_method buf (2 ^ 64 - 1)) _ e in ground arith

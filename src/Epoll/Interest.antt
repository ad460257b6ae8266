-- ===== src/Epoll/Interest.antt =====
-- What the calls of epoll.c do to the interest of a client.
use tiny_http.Prelude.{◌≡◌, ◌≢◌, none, some, arith}
use tiny_http.Epoll.{Client, Event, epoll_add, epoll_del, epoll_mod}

-- epoll_mod changes the interest of a registered client and leaves one that is not registered
-- alone, epoll_add registers, and epoll_del never leaves a client without a registration.
pub interest_calls :
    (c : Client) (e : Event)
    → ((c.interest ≢ none) → (epoll_mod c e).interest ≡ some e)
      × (c.interest ≡ none → (epoll_mod c e).interest ≡ none)
      × (c.interest ≡ none → (epoll_add c e).interest ≡ some e)
      × ((epoll_del c e).interest ≢ none)
unfolding epoll_mod epoll_add epoll_del
interest_calls c e = ground arith

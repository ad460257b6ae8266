-- ===== src/Httpd/Main.antt =====
-- `startup` and `main` of version_01/httpd.c: a thread for each client, which reads the descriptor through a
-- pointer to the one variable `client_sock` of `main`.
pub mod Late
use tiny_http.Prelude.{
  ℕ, zero, suc, ◌+◌, ◌≤◌, ◌≡◌, ◌≢◌, refl, sym, ap, ◌∙◌, Bool, true, false, List, [], ◌∷◌, ◌++◌,
  append_assoc, length, length-append, Option, some, none, arith, ◌==◌, ◌&&◌, if◌then◌else◌,
}

-- The answers of the system to `startup`: `getsockname` gives the port.
pub record Net : Type 0 where
  pub socket : Option ℕ
  pub setsockopt : Bool
  pub bind : Bool
  pub getsockname : Option ℕ
  pub listen : Bool

-- The port that is listened on, where 0 asks the system for one.
abbrev port_of : Net → ℕ → Option ℕ
port_of net port = if port == 0 then net.getsockname else some port

abbrev listening : Net → ℕ → Option ℕ → Option (ℕ × ℕ)
listening net sock none = none
listening net sock (some port) = if net.listen then some (sock, port) else none

abbrev bound : Net → ℕ → Option ℕ → Option (ℕ × ℕ)
bound net port none = none
bound net port (some sock) =
    if net.setsockopt && net.bind then listening net sock (port_of net port) else none

-- `startup`: the socket and the port, or `none` where `error_die` ends the program.
unfoldable pub startup : Net → ℕ → Option (ℕ × ℕ)
startup net port = bound net port net.socket

-- A thread before and behind `int client = *(int *)arg`.
pub data Thread : Type 0 where
  starting : Thread
  serving : (client : ℕ) → Thread

-- `client_sock` of `main`, which is not set at first, and the threads; `accepted` holds each
-- descriptor that `accept` gave.
pub record Main : Type 0 where
  pub client_sock : Option ℕ
  pub threads : List Thread
  pub accepted : List ℕ

abbrev pub start : Main
start = record { client_sock = none; threads = []; accepted = [] }

-- A round of the loop of `main`
unfoldable pub accept_one : Main → ℕ → Main
accept_one m fd = record {
  client_sock = some fd;
  threads = m.threads ++ starting ∷ [];
  accepted = m.accepted ++ fd ∷ [];
}

pub data Step (m : Main) : Main → Type 0 where
  accepts : (fd : ℕ) → Step m (accept_one m fd)
  reads :
      (pre : List Thread) (fd : ℕ) (behind : List Thread)
      → m.threads ≡ pre ++ starting ∷ behind
      → m.client_sock ≡ some fd
      → Step m (record m { threads = pre ++ serving fd ∷ behind })

pub data Reach (m : Main) : Main → Type 0 where
  here : Reach m m
  next : {a b : Main} → Reach m a → Step a b → Reach m b

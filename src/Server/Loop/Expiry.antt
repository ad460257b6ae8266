-- ===== src/Server/Loop/Expiry.antt =====
-- Which connections `timer_handler` closes.
use tiny_http.Prelude.{
  ℕ, suc, ◌<◌, ◌≤◌, ◌≡◌, refl, Bool, true, false, List, [], ◌∷◌, ◌++◌, done, arith, Bool-cases, inl,
  inr, ltb, ltb→lt,
}
use tiny_http.TimerList.Links.{Node}
use tiny_http.TimerList.Insert.{AllFrom, IsSorted}
use tiny_http.TimerList.Tick.{left}
use tiny_http.Server.{Server, timer_handler}
use tiny_http.Server.Own.{timers_of, timers_of-append, bit, bit_le}
use tiny_http.Server.Loop.{Inv, timer_handler-Inv}

timers_of_self : (n : Node) (ns : List Node) → 1 ≤ timers_of n.user (n ∷ ns)
timers_of_self n ns = ground arith

timers_of-left : (fd cur : ℕ) (ns : List Node) → timers_of fd (left cur ns) ≤ timers_of fd ns
timers_of-left fd cur [] = omega arith
timers_of-left fd cur (n ∷ ns) = elim (Bool-cases (ltb cur n.expire)) [
  | inl still ↦ rw still (omega arith)
  | inr over ↦ rw over (omega (arith, timers_of-left fd cur ns))
]

AllFrom-at :
    (lo : ℕ) (xs : List Node) (n : Node) (ys : List Node)
    → AllFrom lo (xs ++ n ∷ ys)
    → lo ≤ n.expire
AllFrom-at lo [] n ys a = a.0
AllFrom-at lo (x ∷ xs) n ys a = AllFrom-at lo xs n ys a.1

left_keeps :
    (cur : ℕ) (xs : List Node) (n : Node) (ys : List Node)
    → cur < n.expire
    → 1 ≤ timers_of n.user (left cur (xs ++ n ∷ ys))
left_keeps cur [] n ys h = ground (arith, timers_of_self n ys)
left_keeps cur (x ∷ xs) n ys h = elim (Bool-cases (ltb cur x.expire)) [
  | inl still ↦
      rw still (omega (arith, timers_of-append n.user (x ∷ xs) (n ∷ ys), timers_of_self n ys))
  | inr over ↦ rw over (left_keeps cur xs n ys h)
]

left_drops :
    (cur : ℕ) (xs : List Node) (n : Node) (ys : List Node)
    → IsSorted (xs ++ n ∷ ys)
    → n.expire ≤ cur
    → suc (timers_of n.user (left cur (xs ++ n ∷ ys))) ≤ timers_of n.user (xs ++ n ∷ ys)
left_drops cur [] n ys s h = ground (arith, timers_of-left n.user cur ys)
left_drops cur (x ∷ xs) n ys s h =
    let front = AllFrom-at x.expire xs n ys s.0 in
    let over : ltb cur x.expire ≡ false = ground arith in
    rw over (omega (arith, left_drops cur xs n ys s.1 h))

-- timer_handler returns, and a connection with a timer of the list is open afterwards exactly if
-- the timer's time is later than now; the invariant holds with the timers that are left.
pub timer_handler_closes :
    (clock now : ℕ) (s : Server) (xs : List Node) (n : Node) (ys : List Node)
    → clock ≤ now
    → Inv clock s (xs ++ n ∷ ys)
    → (s' : Server) × (timer_handler s now ≡ done s')
      × Inv now s' (left now (xs ++ n ∷ ys))
      × ((s'.conns n.user).is_open ≡ ltb now n.expire)
timer_handler_closes clock now s xs n ys le v =
    let (s', e, v') = timer_handler-Inv clock now s (xs ++ n ∷ ys) le v in
    (
      s',
      e,
      v',
      elim (Bool-cases (ltb now n.expire)) [
        | inl still ↦ rw still (
            bit_open (s'.conns n.user).is_open (
              omega
                (arith, v'.own.each n.user, left_keeps now xs n ys (ltb→lt now n.expire still))))
        | inr over ↦ rw over (
            bit_shut (s'.conns n.user).is_open (
              omega (
                arith,
                v'.own.each n.user,
                v.own.each n.user,
                bit_le (s.conns n.user).is_open,
                left_drops now xs n ys v.holds.sorted (ground arith),
              )))
      ],
    )
  where
    bit_open : (b : Bool) → 1 ≤ bit b → b ≡ true
    bit_open true h = refl
    bit_open false h = absurd (omega arith)

    bit_shut : (b : Bool) → bit b ≤ 0 → b ≡ false
    bit_shut true h = absurd (omega arith)
    bit_shut false h = refl

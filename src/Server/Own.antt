-- ===== src/Server/Own.antt =====
-- The connections that are open, and the timers that they have.
use tiny_http.Prelude.{
  ℕ, suc, ◌+◌, ◌≤◌, ◌≡◌, ◌≢◌, refl, sym, ap, ◌∙◌, Bool, true, false, List, [], ◌∷◌, ◌++◌, length,
  length-append, Option, some, arith, Bool-cases, inl, inr, ltb, ◌==◌, if◌then◌else◌,
}
use tiny_http.Prelude.Int.{ℤ, pos}
use tiny_http.HttpConn.Types.{HttpConn, init_sock, addfd, init, minus_one, plus_one}
use tiny_http.HttpConn.Send.Open.{Same}
use tiny_http.TimerList.{TimerList}
use tiny_http.TimerList.Links.{Node}
use tiny_http.TimerList.Insert.{insert}
use tiny_http.TimerList.Tick.{expired, left}
use tiny_http.Server.{Server, conn_at, put_conn, cb_func, call_back}

-- How many timers of the list belong to the descriptor `fd`.
abbrev pub timers_of : ℕ → List Node → ℕ
timers_of fd [] = 0
timers_of fd (n ∷ ns) = (if n.user == fd then 1 else 0) + timers_of fd ns

-- Each timer of the list is the one that its connection points to.
abbrev pub Points : (ℕ → Option ℕ) → List Node → Type 0
Points timer_of [] = Unit {0}
Points timer_of (n ∷ ns) = (timer_of n.user ≡ some n.id) × Points timer_of ns

abbrev pub bit : Bool → ℕ
bit b = if b then 1 else 0

pub bit-true : (b : Bool) → b ≡ true → bit b ≡ 1
bit-true b e = rw e refl

pub bit-false : (b : Bool) → b ≡ false → bit b ≡ 0
bit-false b e = rw e refl

pub bit_le : (b : Bool) → bit b ≤ 1
bit_le true = omega arith
bit_le false = omega arith

minus_one-suc : (z : ℤ) (k n : ℕ) → z ≡ pos k → k ≡ suc n → minus_one z ≡ pos n
minus_one-suc z k n e h = rw (e, h) refl

-- The connections own the timers `ns`: an open connection has one, a closed one none, and the number
-- of users is that of the timers.
pub record Own (s : Server) (ns : List Node) : Type 0 where
  pub count : s.user_count ≡ pos (length ns)
  pub each : (fd : ℕ) → timers_of fd ns ≡ bit (s.conns fd).is_open
  pub points : Points s.timer_of ns

pub timers_of-append :
    (fd : ℕ) (xs ys : List Node) → timers_of fd (xs ++ ys) ≡ timers_of fd xs + timers_of fd ys
timers_of-append fd [] ys = omega arith
timers_of-append fd (x ∷ xs) ys = omega (arith, timers_of-append fd xs ys)

timers_of-insert :
    (fd : ℕ) (n : Node) (ns : List Node) → timers_of fd (insert n ns) ≡ timers_of fd (n ∷ ns)
timers_of-insert fd n [] = refl
timers_of-insert fd n (m ∷ ms) = elim (Bool-cases (ltb n.expire m.expire)) [
  | inl sooner ↦ rw sooner refl
  | inr later ↦ rw later (omega (arith, timers_of-insert fd n ms))
]

pub length-insert : (n : Node) (ns : List Node) → length (insert n ns) ≡ suc (length ns)
length-insert n [] = refl
length-insert n (m ∷ ms) = elim (Bool-cases (ltb n.expire m.expire)) [
  | inl sooner ↦ rw sooner refl
  | inr later ↦ rw later (ap suc (length-insert n ms))
]

Points-insert :
    (f : ℕ → Option ℕ) (n : Node) (ns : List Node)
    → f n.user ≡ some n.id
    → Points f ns
    → Points f (insert n ns)
Points-insert f n [] h p = (h, tt)
Points-insert f n (m ∷ ms) h p = elim (Bool-cases (ltb n.expire m.expire)) [
  | inl sooner ↦ rw sooner (h, p)
  | inr later ↦ rw later (p.0, Points-insert f n ms h p.1)
]

Points-split :
    (f : ℕ → Option ℕ) (xs ys : List Node) → Points f (xs ++ ys) → Points f xs × Points f ys
Points-split f [] ys p = (tt, p)
Points-split f (x ∷ xs) ys p = let (a, b) = Points-split f xs ys p.1 in ((p.0, a), b)

Points-append :
    (f : ℕ → Option ℕ) (xs ys : List Node) → Points f xs → Points f ys → Points f (xs ++ ys)
Points-append f [] ys a b = b
Points-append f (x ∷ xs) ys a b = (a.0, Points-append f xs ys a.1 b)

-- A descriptor without a timer in the list may point elsewhere.
Points-update :
    (f : ℕ → Option ℕ) (fd : ℕ) (v : Option ℕ) (ns : List Node)
    → timers_of fd ns ≡ 0
    → Points f ns
    → Points (λ j. if j == fd then v else f j) ns
Points-update f fd v [] h p = tt
Points-update f fd v (n ∷ ns) h p = elim (Bool-cases (n.user == fd)) [
  | inl same ↦ absurd (omega (arith, rw same at h))
  | inr other ↦ (rw other p.0, Points-update f fd v ns (omega (arith, rw other at h)) p.1)
]

-- An open connection has a timer in the list.
pub record Timer (fd : ℕ) (f : ℕ → Option ℕ) (ns : List Node) : Type 0 where
  pub before : List Node
  pub node : Node
  pub behind : List Node
  pub here : ns ≡ before ++ node ∷ behind
  pub user : node.user ≡ fd
  pub pointer : f fd ≡ some node.id

timers_of-Timer :
    (fd : ℕ) (f : ℕ → Option ℕ) (ns : List Node) → timers_of fd ns ≢ 0 → Points f ns → Timer fd f ns
timers_of-Timer fd f [] h p = absurd (h refl)
timers_of-Timer fd f (n ∷ ns) h p = elim (Bool-cases (n.user == fd)) [
  | inl same ↦
      let e : n.user ≡ fd = ground arith in
      record {
        before = [];
        node = n;
        behind = ns;
        here = refl;
        user = e;
        pointer = ap f (sym e) ∙ p.0;
      }
  | inr other ↦
      let t = timers_of-Timer fd f ns (λ z. h (rw other (omega arith))) p.1 in
      record {
        before = n ∷ t.before;
        node = t.node;
        behind = t.behind;
        here = ap (λ z. n ∷ z) t.here;
        user = t.user;
        pointer = t.pointer;
      }
]

pub Own-Timer :
    {s : Server} {ns : List Node} (fd : ℕ)
    → Own s ns
    → (s.conns fd).is_open ≡ true
    → Timer fd s.timer_of ns
Own-Timer {s} {ns} fd o live =
    timers_of-Timer fd s.timer_of ns
      (λ z. absurd (omega (arith, o.each fd, bit-true (s.conns fd).is_open live))) o.points

-- cb_func of a connection whose timer is taken out.
pub cb_func-Own :
    (s : Server) (xs : List Node) (n : Node) (ys : List Node)
    → Own s (xs ++ n ∷ ys)
    → Own (cb_func s n.user) (xs ++ ys)
unfolding cb_func conn_at put_conn
cb_func-Own s xs n ys o = record {
  count =
      minus_one-suc s.user_count (length (xs ++ n ∷ ys)) (length (xs ++ ys)) o.count
        (omega (arith, length-append xs (n ∷ ys), length-append xs ys));
  each = λ fd. ground (
    arith,
    o.each fd,
    timers_of-append fd xs (n ∷ ys),
    timers_of-append fd xs ys,
    bit_le (s.conns fd).is_open,
  );
  points =
      let (a, b) = Points-split s.timer_of xs (n ∷ ys) o.points in
      Points-append s.timer_of xs ys a b.1;
}

-- The callbacks that tick calls.
pub call_back-Own :
    (s : Server) (cur : ℕ) (ns : List Node)
    → Own s ns
    → Own (call_back s (expired cur ns)) (left cur ns)
unfolding call_back
call_back-Own s cur [] o = o
call_back-Own s cur (n ∷ ns) o = elim (Bool-cases (ltb cur n.expire)) [
  | inl still ↦ rw still o
  | inr over ↦ rw over (call_back-Own (cb_func s n.user) cur ns (cb_func-Own s [] n ns o))
]

init_sock_lem :
    (c : HttpConn) (fd : ℕ)
    → ((init_sock c fd).is_open ≡ true) × ((init_sock c fd).user_count ≡ plus_one c.user_count)
unfolding init_sock addfd init
init_sock_lem c fd = (refl, refl)

-- A connection that is set up, with its timer in the list.
pub set_up-Own :
    (s : Server) (n : Node) (ns : List Node) (l : TimerList)
    → (s.conns n.user).is_open ≡ false
    → Own s ns
    → Own
        (record (put_conn s n.user (init_sock (conn_at s n.user) n.user)) {
          timers = l;
          timer_of = λ j. if j == n.user then some n.id else s.timer_of j;
        })
        (insert n ns)
unfolding put_conn conn_at
set_up-Own s n ns l shut o =
    let (live, more) = init_sock_lem (conn_at s n.user) n.user in
    let none_there : timers_of n.user ns ≡ 0 =
      omega (arith, o.each n.user, bit-false (s.conns n.user).is_open shut) in
    let self : (n.user == n.user) ≡ true = ground arith in
    record {
      count = more ∙ ap plus_one o.count ∙ ap pos (sym (length-insert n ns));
      each = λ fd. timers_of-insert fd n ns ∙ ground (arith, o.each fd, none_there, live);
      points =
          Points-insert _ n ns (rw self refl)
            (Points-update s.timer_of n.user (some n.id) ns none_there o.points);
    }

-- A connection that changes otherwise.
pub put_conn-Own :
    (s : Server) (fd : ℕ) (c : HttpConn) (ns : List Node)
    → Same (conn_at s fd) c
    → Own s ns
    → Own (put_conn s fd c) ns
unfolding put_conn conn_at
put_conn-Own s fd c ns same o = record {
  count = same.1 ∙ o.count;
  each = λ j. ground (arith, o.each j, o.each fd, same.0);
  points = o.points;
}

-- A timer that moves in the list.
pub moved-Own :
    (s : Server) (xs : List Node) (n n' : Node) (ys : List Node)
    → n'.id ≡ n.id
    → n'.user ≡ n.user
    → Own s (xs ++ n ∷ ys)
    → Own s (xs ++ insert n' ys)
moved-Own s xs n n' ys i u o = record {
  count =
      o.count
      ∙ ap pos (
          omega (
            arith,
            length-append xs (n ∷ ys),
            length-append xs (insert n' ys),
            length-insert n' ys,
          ));
  each = λ fd. ground (
    arith,
    o.each fd,
    timers_of-append fd xs (n ∷ ys),
    timers_of-append fd xs (insert n' ys),
    timers_of-insert fd n' ys,
  );
  points =
      let (a, b) = Points-split s.timer_of xs (n ∷ ys) o.points in
      Points-append s.timer_of xs (insert n' ys) a
        (Points-insert s.timer_of n' ys (ap s.timer_of u ∙ b.0 ∙ ap some (sym i)) b.1);
}

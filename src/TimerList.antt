-- ===== src/TimerList.antt =====
-- version_03/timer/lst_timer.h: the doubly linked list of timers, on an explicit heap. A timer is a
-- cell; `delete` empties it, and the use of an empty cell is a fault.
pub mod Links
pub mod Insert
pub mod Tick
pub mod Split
pub mod Delete
pub mod Adjust
pub mod Later
mod Tests
use tiny_http.Prelude.{
  ℕ, zero, suc, ◌+◌, ◌-◌, ◌*◌, ◌/◌, ◌%◌, ◌^◌, ◌<◌, ◌≤◌, ◌≡◌, ◌≢◌, ◌↔◌, ◌⊎◌, inl, inr, refl, sym, ap,
  ◌∙◌, subst, Bool, true, false, List, [], ◌∷◌, ◌++◌, append_assoc, append-nil, Bytes, length,
  length-append, take, drop, length-drop, Run, Option, some, none, replicate, done, fault, timeout,
  ◌>>=◌, >>=-eq-done, >>=-ne-timeout, arith, Bool-cases, leb, ltb, lt→ltb, not, ◌&&◌, ◌||◌, ◌==◌,
  if◌then◌else◌, codes, String,
}

-- `util_timer`; `user` stands for `user_data`, which the callback gets.
pub record UtilTimer : Type 0 where
  pub expire : ℕ
  pub user : ℕ
  pub prev : Option ℕ
  pub next : Option ℕ

abbrev pub Cells : Type 0
Cells = ℕ → Option UtilTimer

abbrev pub update : Cells → ℕ → Option UtilTimer → Cells
update cells k v j = if j == k then v else cells j

-- `sort_timer_lst`, with the heap and the users that callbacks were called with.
pub record TimerList : Type 0 where
  pub head : Option ℕ
  pub tail : Option ℕ
  pub cells : Cells
  pub called : List ℕ

abbrev pub or_fault {ℓ} : {A : Type ℓ} → Option A → Run A
or_fault none = fault
or_fault (some a) = done a

-- *p
abbrev pub deref : Cells → ℕ → Run UtilTimer
deref cells k = or_fault (cells k)

-- p->next = q
unfoldable pub set_next : Cells → ℕ → Option ℕ → Run Cells
set_next cells k q = do t ← deref cells k; done (update cells k (some (record t { next = q })))

-- p->prev = q
unfoldable pub set_prev : Cells → ℕ → Option ℕ → Run Cells
set_prev cells k q = do t ← deref cells k; done (update cells k (some (record t { prev = q })))

-- The timer `n` between `prev` and `tmp`.
unfoldable pub insert_before : TimerList → ℕ → ℕ → ℕ → Run TimerList
insert_before l n prev tmp = do
  c1 ← set_next l.cells prev (some n)
  c2 ← set_next c1 n (some tmp)
  c3 ← set_prev c2 tmp (some n)
  c4 ← set_prev c3 n (some prev)
  done (record l { cells = c4 })

-- The timer `n` at the end, behind `prev`.
unfoldable pub insert_last : TimerList → ℕ → ℕ → Run TimerList
insert_last l n prev = do
  c1 ← set_next l.cells prev (some n)
  c2 ← set_prev c1 n (some prev)
  c3 ← set_next c2 n none
  done (record l { cells = c3; tail = some n })

-- The loop of the private `add_timer`, on fuel.
unfoldable pub insert_loop : ℕ → TimerList → ℕ → ℕ → Option ℕ → Run TimerList
insert_loop zero l n prev tmp = timeout
insert_loop (suc fuel) l n prev none = insert_last l n prev
insert_loop (suc fuel) l n prev (some tmp) = do
  timer ← deref l.cells n
  other ← deref l.cells tmp
  let on = insert_loop fuel l n tmp other.next
  if ltb timer.expire other.expire then insert_before l n prev tmp else on

-- The private `add_timer`.
unfoldable pub add_behind : ℕ → TimerList → ℕ → ℕ → Run TimerList
add_behind fuel l n lst_head = do
  first ← deref l.cells lst_head
  insert_loop fuel l n lst_head first.next

-- The timer `n` in front of the head.
unfoldable pub add_front : TimerList → ℕ → ℕ → Run TimerList
add_front l n head = do
  c1 ← set_next l.cells n (some head)
  c2 ← set_prev c1 head (some n)
  done (record l { cells = c2; head = some n })

unfoldable pub add_to : ℕ → TimerList → ℕ → Option ℕ → Run TimerList
unfolding add_front
add_to fuel l n none = done (record l { head = some n; tail = some n })
add_to fuel l n (some head) = do
  timer ← deref l.cells n
  first ← deref l.cells head
  let behind = add_behind fuel l n head
  if ltb timer.expire first.expire then add_front l n head else behind

-- `add_timer` of a timer that is not NULL; the fuel bounds the length of the list.
unfoldable pub add_timer : ℕ → TimerList → ℕ → Run TimerList
unfolding add_to
add_timer fuel l n = add_to fuel l n l.head

-- `head = head->next; head->prev = NULL`
unfoldable pub drop_head : TimerList → ℕ → Run TimerList
drop_head l head = do
  t ← deref l.cells head
  next ← or_fault t.next
  c ← set_prev l.cells next none
  done (record l { head = some next; cells = c })

-- `p->prev->next = p->next; p->next->prev = p->prev`
unfoldable pub unlink : TimerList → ℕ → Run TimerList
unlink l n = do
  t ← deref l.cells n
  prev ← or_fault t.prev
  c1 ← set_next l.cells prev t.next
  t' ← deref c1 n
  next ← or_fault t'.next
  c2 ← set_prev c1 next t'.prev
  done (record l { cells = c2 })

abbrev pub is : Option ℕ → ℕ → Bool
is none n = false
is (some k) n = k == n

-- `delete p`
abbrev pub delete : TimerList → ℕ → TimerList
delete l n = record l { cells = update l.cells n none }

-- `tail = tail->prev; tail->next = NULL`
unfoldable pub drop_tail : TimerList → ℕ → Run TimerList
drop_tail l tail = do
  t ← deref l.cells tail
  prev ← or_fault t.prev
  c ← set_next l.cells prev none
  done (record l { tail = some prev; cells = c })

unfoldable pub del_timer : TimerList → ℕ → Run TimerList
unfolding drop_head drop_tail unlink
del_timer l n =
    let only = delete (record l { head = none; tail = none }) n in
    let from_head = (do l' ← drop_head l n; done (delete l' n)) in
    let from_tail = (do l' ← drop_tail l n; done (delete l' n)) in
    let middle = (do l' ← unlink l n; done (delete l' n)) in
    if is l.head n && is l.tail n
    then done only
    else if is l.head n
    then from_head
    else if is l.tail n
    then from_tail
    else middle

-- What `adjust_timer` does where the timer has to move.
unfoldable pub move_timer : ℕ → TimerList → ℕ → ℕ → Run TimerList
move_timer fuel l n next =
    let from_head = (do
      l' ← drop_head l n
      c ← set_next l'.cells n none
      head ← or_fault l'.head
      add_behind fuel (record l' { cells = c }) n head) in
    let middle = (do l' ← unlink l n; add_behind fuel l' n next) in
    if is l.head n then from_head else middle

unfoldable pub adjust_before : ℕ → TimerList → ℕ → UtilTimer → Option ℕ → Run TimerList
adjust_before fuel l n timer none = done l
adjust_before fuel l n timer (some next) = do
  other ← deref l.cells next
  let moved = move_timer fuel l n next
  if ltb timer.expire other.expire then done l else moved

unfoldable pub adjust_timer : ℕ → TimerList → ℕ → Run TimerList
adjust_timer fuel l n = do timer ← deref l.cells n; adjust_before fuel l n timer timer.next

-- `if (head) head->prev = NULL`
unfoldable pub clear_prev : Cells → Option ℕ → Run Cells
clear_prev cells none = done cells
clear_prev cells (some head) = set_prev cells head none

-- The loop of `tick` at the time `cur`, on fuel.
unfoldable pub tick_loop : ℕ → ℕ → TimerList → Option ℕ → Run TimerList
tick_loop zero cur l tmp = timeout
tick_loop (suc fuel) cur l none = done l
tick_loop (suc fuel) cur l (some tmp) = do
  t ← deref l.cells tmp
  let expired = (do
    c ← clear_prev l.cells t.next
    let l' = delete (record l { head = t.next; cells = c; called = l.called ++ t.user ∷ [] }) tmp
    tick_loop fuel cur l' t.next)
  if ltb cur t.expire then done l else expired

unfoldable pub tick : ℕ → ℕ → TimerList → Run TimerList
tick fuel cur l = tick_loop fuel cur l l.head

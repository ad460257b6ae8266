-- ===== src/TimerList/Tests.antt =====
-- Runs of the timers, and the theorems at concrete inputs.
use tiny_http.Prelude.{
  ℕ, ◌+◌, ◌≡◌, refl, List, [], ◌∷◌, Run, Option, some, none, done, fault, timeout, arith,
}
use tiny_http.TimerList.{
  TimerList, Cells, update, set_prev, add_timer, adjust_timer, del_timer, drop_head,
}
use tiny_http.TimerList.Links.{Node, timer}
use tiny_http.TimerList.Insert.{Holds, add_timer-Holds}
use tiny_http.TimerList.Delete.{del_timer-Holds}
use tiny_http.TimerList.Adjust.{Linked, adjust_timer-Holds}

abbrev node : ℕ → ℕ → Node
node k expire = record { id = k; expire = expire; user = k + 100 }

-- Timers that expire at 10 and 20, and one at 15 outside the list.
abbrev cells : Cells
cells =
    update
      (update (update (λ k. none) 0 (some (timer (node 0 10) none (some 1)))) 1
        (some (timer (node 1 20) (some 0) none)))
      2 (some (timer (node 2 15) none none))

abbrev two : TimerList
two = record { head = some 0; tail = some 1; cells = cells; called = [] }

abbrev nodes : List Node
nodes = node 0 10 ∷ node 1 20 ∷ []

two-Holds : Holds two nodes
two-Holds = record {
  head = refl;
  tail = refl;
  links = (refl, (refl, tt));
  distinct = ((omega arith, tt), (tt, tt));
  sorted = ((omega arith, tt), (tt, tt));
}

add_timer-Holds_example :
    (l' : TimerList) × (add_timer 2 two 2 ≡ done l')
    × Holds l' (node 0 10 ∷ node 2 15 ∷ node 1 20 ∷ [])
    × (l'.called ≡ [])
add_timer-Holds_example =
    add_timer-Holds 2 two (node 2 15) nodes two-Holds refl (omega arith, (omega arith, tt))
      (omega arith)

-- A timer that moves, and one that is deleted: the times of the list that is left.
abbrev time_at : Run TimerList → ℕ → Option ℕ
time_at fault k = none
time_at timeout k = none
time_at (done l) k = elim (l.cells k) [ none ↦ none | some t ↦ some t.expire ]

deleted : time_at (del_timer two 0) 0 ≡ none
unfolding del_timer drop_head set_prev
deleted = refl

kept : time_at (del_timer two 0) 1 ≡ some 20
unfolding del_timer drop_head set_prev
kept = refl

del_timer-Holds_example :
    (l' : TimerList) × (del_timer two 0 ≡ done l') × Holds l' (node 1 20 ∷ []) × (l'.called ≡ [])
del_timer-Holds_example = del_timer-Holds two [] (node 0 10) (node 1 20 ∷ []) two-Holds

-- The first timer's time has grown to 30.
abbrev grown : TimerList
grown = record two { cells = update cells 0 (some (timer (node 0 30) none (some 1))) }

grown-Linked : Linked grown (node 0 30 ∷ node 1 20 ∷ [])
grown-Linked = record {
  head = refl;
  tail = refl;
  links = (refl, (refl, tt));
  distinct = ((omega arith, tt), (tt, tt));
}

adjust_timer-Holds_example :
    (l' : TimerList) × (adjust_timer 1 grown 0 ≡ done l')
    × Holds l' (node 1 20 ∷ node 0 30 ∷ [])
    × (l'.called ≡ [])
adjust_timer-Holds_example =
    adjust_timer-Holds 1 grown [] (node 0 30) (node 1 20 ∷ []) grown-Linked (tt, tt) tt
      (omega arith)

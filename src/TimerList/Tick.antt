-- ===== src/TimerList/Tick.antt =====
-- `tick` calls the callbacks of the timers that have expired.
use tiny_http.Prelude.{
  ℕ, zero, suc, ◌<◌, ◌≤◌, ◌≡◌, inl, inr, refl, sym, ap, ◌∙◌, List, [], ◌∷◌, ◌++◌, append_assoc,
  append-nil, length, Option, some, none, done, arith, Bool-cases, ltb, if◌then◌else◌,
}
use tiny_http.TimerList.{UtilTimer, Cells, update, TimerList, clear_prev, tick_loop, tick}
use tiny_http.TimerList.Links.{
  Node, timer, first, last, Links, Distinct, Links-update, update_self, set_prev_lem,
}
use tiny_http.TimerList.Insert.{AllFrom, AllFrom-le, IsSorted, TailIs, Holds}

-- The users of the timers at the front that expire at `cur` or before.
abbrev pub expired : ℕ → List Node → List ℕ
expired cur [] = []
expired cur (n ∷ ns) = if ltb cur n.expire then [] else n.user ∷ expired cur ns

-- The timers behind them.
abbrev pub left : ℕ → List Node → List Node
left cur [] = []
left cur (n ∷ ns) = if ltb cur n.expire then n ∷ ns else left cur ns

clear_prev-Links :
    (cells : Cells) (p : ℕ) (ns : List Node)
    → Links cells (some p) ns
    → Distinct ns
    → (c : Cells) × (clear_prev cells (first ns) ≡ done c) × Links c none ns
unfolding clear_prev
clear_prev-Links cells p [] lk d = (cells, refl, tt)
clear_prev-Links cells p (n ∷ ns) lk d =
    let v : Option UtilTimer = some (timer n none (first ns)) in
    (
      update cells n.id v,
      set_prev_lem cells n.id none lk.0,
      (update_self cells n.id v, Links-update cells n.id v (some n.id) ns d.0 lk.1),
    )

tail_of : (n : Node) (ns : List Node) (t : Option ℕ) → t ≡ some (last n ns) → TailIs t ns
tail_of n [] t e = tt
tail_of n (m ∷ ms) t e = e

tick_loop-Holds :
    (fuel cur : ℕ) (l : TimerList) (ns : List Node)
    → Holds l ns
    → length ns < fuel
    → (l' : TimerList) × (tick_loop fuel cur l (first ns) ≡ done l')
      × Holds l' (left cur ns)
      × (l'.called ≡ l.called ++ expired cur ns)
unfolding tick_loop
tick_loop-Holds zero cur l ns h f = absurd (omega arith)
tick_loop-Holds (suc fuel) cur l [] h f = (l, refl, h, sym (append-nil l.called))
tick_loop-Holds (suc fuel) cur l (n ∷ ns) h f = elim (Bool-cases (ltb cur n.expire)) [
  | inl still ↦ rw still (l, rw h.links.0 (rw still refl), h, sym (append-nil l.called))
  | inr over ↦
      let (c, e, links) = clear_prev-Links l.cells n.id ns h.links.1 h.distinct.1 in
      let l1 : TimerList = record l {
        head = first ns;
        cells = update c n.id none;
        called = l.called ++ n.user ∷ [];
      } in
      let h1 : Holds l1 ns = record {
        head = refl;
        tail = tail_of n ns l.tail h.tail;
        links = Links-update c n.id none none ns h.distinct.0 links;
        distinct = h.distinct.1;
        sorted = h.sorted.1;
      } in
      let (l', e', h', called) = tick_loop-Holds fuel cur l1 ns h1 (omega arith) in
      rw over (
        l',
        rw (h.links.0, over, e) e',
        h',
        called ∙ append_assoc l.called (n.user ∷ []) (expired cur ns),
      )
]

left_later : (cur : ℕ) (ns : List Node) → IsSorted ns → AllFrom (suc cur) (left cur ns)
left_later cur [] s = tt
left_later cur (n ∷ ns) s = elim (Bool-cases (ltb cur n.expire)) [
  | inl still ↦
      let later : suc cur ≤ n.expire = ground arith in
      rw still (later, AllFrom-le (suc cur) n.expire ns later s.0)
  | inr over ↦ rw over (left_later cur ns s.1)
]

pub tick-Holds :
    (fuel cur : ℕ) (l : TimerList) (ns : List Node)
    → Holds l ns
    → length ns < fuel
    → (l' : TimerList) × (tick fuel cur l ≡ done l')
      × Holds l' (left cur ns)
      × AllFrom (suc cur) (left cur ns)
      × (l'.called ≡ l.called ++ expired cur ns)
unfolding tick
tick-Holds fuel cur l ns h f =
    let (l', e, h', called) = tick_loop-Holds fuel cur l ns h f in
    (l', ap (tick_loop fuel cur l) h.head ∙ e, h', left_later cur ns h.sorted, called)

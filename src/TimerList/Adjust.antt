-- ===== src/TimerList/Adjust.antt =====
-- `adjust_timer` moves a timer whose time has grown.
use tiny_http.Prelude.{
  ℕ, ◌<◌, ◌≤◌, ◌≡◌, inl, inr, refl, sym, ap, ◌∙◌, true, false, List, [], ◌∷◌, ◌++◌, length, Option,
  some, none, done, arith, Bool-cases, ltb,
}
use tiny_http.TimerList.{
  UtilTimer, Cells, update, TimerList, is, set_next, add_behind, move_timer, adjust_before,
  adjust_timer,
}
use tiny_http.TimerList.Links.{
  Node, timer, first, last, Links, Lacks, Distinct, Links-update, update_self, set_next_lem,
}
use tiny_http.TimerList.Insert.{
  insert, insert_loop-Inserted, AllFrom, IsSorted, AllFrom-insert, insert-IsSorted, Lacks-insert,
  Distinct-insert, TailIs, Holds,
}
use tiny_http.TimerList.Split.{
  LinksTo, end, last-append, Links-split, Links-join, Apart, Apart-first, Distinct-append,
  Lacks-append, append-Lacks,
}
use tiny_http.TimerList.Delete.{is_self, is_ne, drop_head-Links, unlink-Links}

-- `l` holds the timers `ns` in any order.
pub record Linked (l : TimerList) (ns : List Node) : Type 0 where
  pub head : l.head ≡ first ns
  pub tail : TailIs l.tail ns
  pub links : Links l.cells none ns
  pub distinct : Distinct ns

-- All expire at `hi` or before.
abbrev pub AllTo : ℕ → List Node → Type 0
AllTo hi [] = Unit {0}
AllTo hi (n ∷ ns) = (n.expire ≤ hi) × AllTo hi ns

LinksTo-same :
    (a b : Cells) (p q : Option ℕ) (xs ys : List Node)
    → ((j : ℕ) → Lacks j ys → b j ≡ a j)
    → Apart xs ys
    → LinksTo a p q xs
    → LinksTo b p q xs
LinksTo-same a b p q [] ys f h l = tt
LinksTo-same a b p q (x ∷ xs) ys f h l =
    (f x.id h.0 ∙ l.0, LinksTo-same a b (some x.id) q xs ys f h.1 l.1)

AllFrom-insert_append :
    (lo : ℕ) (xs : List Node) (n : Node) (ys : List Node)
    → lo ≤ n.expire
    → AllFrom lo (xs ++ ys)
    → AllFrom lo (xs ++ insert n ys)
AllFrom-insert_append lo [] n ys h a = AllFrom-insert lo n ys h a
AllFrom-insert_append lo (x ∷ xs) n ys h a = (a.0, AllFrom-insert_append lo xs n ys h a.1)

insert_append-IsSorted :
    (xs : List Node) (n : Node) (ys : List Node)
    → AllTo n.expire xs
    → IsSorted (xs ++ ys)
    → IsSorted (xs ++ insert n ys)
insert_append-IsSorted [] n ys h s = insert-IsSorted n ys s
insert_append-IsSorted (x ∷ xs) n ys h s =
    (AllFrom-insert_append x.expire xs n ys h.0 s.0, insert_append-IsSorted xs n ys h.1 s.1)

Distinct-insert_append :
    (xs : List Node) (n : Node) (ys : List Node)
    → Distinct (xs ++ n ∷ ys)
    → Distinct (xs ++ insert n ys)
Distinct-insert_append [] n ys d = Distinct-insert n ys d.1 d.0
Distinct-insert_append (x ∷ xs) n ys d =
    let (h, k) = Lacks-append x.id xs (n ∷ ys) d.0 in
    (
      append-Lacks x.id xs (insert n ys) h (Lacks-insert x.id n ys k.0 k.1),
      Distinct-insert_append xs n ys d.1,
    )

-- A timer that is in front of one that expires no later moves behind it.
move_timer-Linked :
    (fuel : ℕ) (l : TimerList) (pre : List Node) (n m : Node) (ms : List Node)
    → Linked l (pre ++ n ∷ m ∷ ms)
    → ltb n.expire m.expire ≡ false
    → length ms < fuel
    → (l' : TimerList) × (move_timer fuel l n.id m.id ≡ done l')
      × Linked l' (pre ++ insert n (m ∷ ms))
      × (l'.called ≡ l.called)
unfolding move_timer add_behind
move_timer-Linked fuel l [] n m ms h later f =
    let (c, e, links, frame) = drop_head-Links l n m ms h.links h.distinct in
    let lacks : Lacks n.id (m ∷ ms) = h.distinct.0 in
    let at_head : is l.head n.id ≡ true = ap (λ z. is z n.id) h.head ∙ is_self n.id in
    let at_n : c n.id ≡ some (timer n none (some m.id)) = frame n.id lacks.0 ∙ h.links.0 in
    let v : Option UtilTimer = some (timer n none none) in
    let c1 = update c n.id v in
    let e1 : set_next c n.id none ≡ done c1 = set_next_lem c n.id none at_n in
    let links1 : Links c1 none (m ∷ ms) = Links-update c n.id v none (m ∷ ms) lacks links in
    let l1 : TimerList = record l { head = some m.id; cells = c1 } in
    let (l', e', r) =
      insert_loop-Inserted fuel l1 n m none none none ms (update_self c n.id v) links1 h.tail
        h.distinct.1 lacks f in
    (
      l',
      rw (at_head, e, e1, links1.0) e',
      rw later (record {
        head = r.head;
        tail = r.tail;
        links = r.links;
        distinct = rw later at (Distinct-insert n (m ∷ ms) h.distinct.1 lacks);
      }),
      r.called,
    )
move_timer-Linked fuel l (k ∷ ks) n m ms h later f =
    let (c, e, links, at_n) = unlink-Links l k ks n m ms h.links h.distinct in
    let (_, dn, apart) = Distinct-append (k ∷ ks) (n ∷ m ∷ ms) h.distinct in
    let (to, from) = Links-split c none (k ∷ ks) (m ∷ ms) links in
    let lacks = Apart-first (k ∷ ks) n (m ∷ ms) apart in
    let at_head : is l.head n.id ≡ false =
      ap (λ z. is z n.id) h.head ∙ is_ne k.id n.id (λ z. lacks.0 (sym z)) in
    let l1 : TimerList = record l { cells = c } in
    let at_tail : l1.tail ≡ some (last m ms) =
      h.tail ∙ ap (λ z. some z) (last-append k ks n (m ∷ ms)) in
    let (l', e', r) =
      insert_loop-Inserted fuel l1 n m (end none (k ∷ ks)) (some (last k ks)) (some m.id) ms at_n
        from at_tail dn.1 dn.0 f in
    let front =
      LinksTo-same c l'.cells none (some m.id) (k ∷ ks) (n ∷ m ∷ ms) (λ j z. r.frame j z.0 z.1)
        apart to in
    (
      l',
      rw (at_head, e, from.0) e',
      rw later (record {
        head = r.head ∙ h.head;
        tail = r.tail ∙ ap (λ z. some z) (sym (last-append k ks m (insert n ms)));
        links = Links-join l'.cells none (k ∷ ks) (m ∷ insert n ms) front r.links;
        distinct = rw later at (Distinct-insert_append (k ∷ ks) n (m ∷ ms) h.distinct);
      }),
      r.called,
    )

-- adjust_timer of a timer of a doubly linked list that is sorted but for this timer, which expires
-- no sooner than those in front of it, with enough rounds for those behind it, puts it behind all
-- that expire no later; the list is then sorted and doubly linked, and no callback is called.
pub adjust_timer-Holds :
    (fuel : ℕ) (l : TimerList) (pre : List Node) (n : Node) (post : List Node)
    → Linked l (pre ++ n ∷ post)
    → IsSorted (pre ++ post)
    → AllTo n.expire pre
    → length post ≤ fuel
    → (l' : TimerList) × (adjust_timer fuel l n.id ≡ done l')
      × Holds l' (pre ++ insert n post)
      × (l'.called ≡ l.called)
unfolding adjust_timer adjust_before
adjust_timer-Holds fuel l pre n [] h s t f =
    let (_, from) = Links-split l.cells none pre (n ∷ []) h.links in
    (
      l,
      rw from.0 refl,
      record {
        head = h.head;
        tail = h.tail;
        links = h.links;
        distinct = h.distinct;
        sorted = insert_append-IsSorted pre n [] t s;
      },
      refl,
    )
adjust_timer-Holds fuel l pre n (m ∷ ms) h s t f =
    let (_, from) = Links-split l.cells none pre (n ∷ m ∷ ms) h.links in
    let ordered = insert_append-IsSorted pre n (m ∷ ms) t s in
    elim (Bool-cases (ltb n.expire m.expire)) [
      | inl sooner ↦ (
        l,
        rw (from.0, from.1.0, sooner) refl,
        rw sooner (record {
          head = h.head;
          tail = h.tail;
          links = h.links;
          distinct = h.distinct;
          sorted = rw sooner at ordered;
        }),
        refl,
      )
      | inr later ↦
          let (l', e, k, called) = move_timer-Linked fuel l pre n m ms h later (omega arith) in
          (
            l',
            rw (from.0, from.1.0, later) e,
            record {
              head = k.head;
              tail = k.tail;
              links = k.links;
              distinct = k.distinct;
              sorted = ordered;
            },
            called,
          )
    ]

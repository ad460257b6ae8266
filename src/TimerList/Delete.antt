-- ===== src/TimerList/Delete.antt =====
-- `del_timer` takes a timer out of the list.
use tiny_http.Prelude.{
  ℕ, ◌≡◌, ◌≢◌, refl, sym, ap, ◌∙◌, subst, true, false, List, [], ◌∷◌, ◌++◌, append-nil, Option,
  some, none, done, arith,
}
use tiny_http.TimerList.{
  UtilTimer, Cells, update, TimerList, is, delete, set_prev, drop_head, drop_tail, unlink,
  del_timer,
}
use tiny_http.TimerList.Links.{
  Node, timer, first, last, Links, Distinct, Links-update, update_self, update_ne, set_prev_lem,
}
use tiny_http.TimerList.Insert.{IsSorted, Holds}
use tiny_http.TimerList.Split.{
  end-last, last-append, Links-split, Links-join, LinksTo-update, Lacks-last, relink_last,
  Links-frame, append-Lacks, Distinct-append, append-Distinct, Apart-last, Apart-first, Apart-rest,
  append-IsSorted,
}

pub is_self : (k : ℕ) → is (some k) k ≡ true
is_self k = ground arith

pub is_ne : (k n : ℕ) → k ≢ n → is (some k) n ≡ false
is_ne k n h = ground arith

-- The list without its head.
pub drop_head-Links :
    (l : TimerList) (n m : Node) (ms : List Node)
    → Links l.cells none (n ∷ m ∷ ms)
    → Distinct (n ∷ m ∷ ms)
    → (c : Cells) × (drop_head l n.id ≡ done (record l { head = some m.id; cells = c }))
      × Links c none (m ∷ ms)
      × ((j : ℕ) → j ≢ m.id → c j ≡ l.cells j)
unfolding drop_head
drop_head-Links l n m ms k d =
    let v : Option UtilTimer = some (timer m none (first ms)) in
    let e : set_prev l.cells m.id none ≡ done (update l.cells m.id v) =
      set_prev_lem l.cells m.id none k.1.0 in
    (
      update l.cells m.id v,
      rw (k.0, e) refl,
      (update_self l.cells m.id v, Links-update l.cells m.id v (some m.id) ms d.1.0 k.1.1),
      λ j h. update_ne l.cells m.id j v h,
    )

-- The list without its tail.
drop_tail-Links :
    (l : TimerList) (k : Node) (ks : List Node) (n : Node)
    → Links l.cells none ((k ∷ ks) ++ n ∷ [])
    → Distinct ((k ∷ ks) ++ n ∷ [])
    → (c : Cells) × (drop_tail l n.id ≡ done (record l { tail = some (last k ks); cells = c }))
      × Links c none (k ∷ ks)
unfolding drop_tail
drop_tail-Links l k ks n h d =
    let (to, from) = Links-split l.cells none (k ∷ ks) (n ∷ []) h in
    let (dk, _, _) = Distinct-append (k ∷ ks) (n ∷ []) d in
    let at_n : l.cells n.id ≡ some (timer n (some (last k ks)) none) =
      from.0 ∙ ap (λ z. some (timer n z none)) (end-last none k ks) in
    let (c, e, links, _) = relink_last l.cells none (some n.id) none k ks dk to in
    (
      c,
      rw (at_n, e) refl,
      subst (λ z. Links c none z) (append-nil (k ∷ ks)) (Links-join c none (k ∷ ks) [] links tt),
    )

-- The list without a timer between two others.
pub unlink-Links :
    (l : TimerList) (k : Node) (ks : List Node) (n m : Node) (ms : List Node)
    → Links l.cells none ((k ∷ ks) ++ n ∷ m ∷ ms)
    → Distinct ((k ∷ ks) ++ n ∷ m ∷ ms)
    → (c : Cells) × (unlink l n.id ≡ done (record l { cells = c }))
      × Links c none ((k ∷ ks) ++ m ∷ ms)
      × (c n.id ≡ some (timer n (some (last k ks)) (some m.id)))
unfolding unlink
unlink-Links l k ks n m ms h d =
    let (to, from) = Links-split l.cells none (k ∷ ks) (n ∷ m ∷ ms) h in
    let (dk, dn, apart) = Distinct-append (k ∷ ks) (n ∷ m ∷ ms) d in
    let before = end-last none k ks in
    let far = Apart-last k ks (n ∷ m ∷ ms) apart in
    let at_n : l.cells n.id ≡ some (timer n (some (last k ks)) (some m.id)) =
      from.0 ∙ ap (λ z. some (timer n z (some m.id))) before in
    let (c1, e1, links, frame) = relink_last l.cells none (some n.id) (some m.id) k ks dk to in
    let at_n1 : c1 n.id ≡ some (timer n (some (last k ks)) (some m.id)) =
      frame n.id (λ z. far.0 (sym z)) ∙ at_n in
    let at_m1 : c1 m.id ≡ some (timer m (some n.id) (first ms)) =
      frame m.id (λ z. far.1.0 (sym z)) ∙ from.1.0 in
    let v : Option UtilTimer = some (timer m (some (last k ks)) (first ms)) in
    let c2 = update c1 m.id v in
    let e2 : set_prev c1 m.id (some (last k ks)) ≡ done c2 =
      set_prev_lem c1 m.id (some (last k ks)) at_m1 in
    let lacks_m = Apart-first (k ∷ ks) m ms (Apart-rest (k ∷ ks) n (m ∷ ms) apart) in
    let behind : Links c2 (some (last k ks)) (m ∷ ms) = (
      update_self c1 m.id v,
      Links-update c1 m.id v (some m.id) ms dn.1.0
          (Links-frame l.cells c1 (last k ks) (some m.id) ms frame far.1.1 from.1.1),
    ) in
    (
      c2,
      rw (at_n, e1, at_n1, e2) refl,
      Links-join c2 none (k ∷ ks) (m ∷ ms)
          (LinksTo-update c1 m.id v none (some m.id) (k ∷ ks) lacks_m links)
          (subst (λ z. Links c2 z (m ∷ ms)) (sym before) behind),
      update_ne c1 m.id n.id v dn.0.0 ∙ at_n1,
    )

-- del_timer of a timer of a sorted list takes it out, keeps the list of the others doubly linked
-- and sorted, and calls no callback.
pub del_timer-Holds :
    (l : TimerList) (pre : List Node) (n : Node) (post : List Node)
    → Holds l (pre ++ n ∷ post)
    → (l' : TimerList) × (del_timer l n.id ≡ done l')
      × Holds l' (pre ++ post)
      × (l'.called ≡ l.called)
unfolding del_timer
del_timer-Holds l [] n [] h =
    let at_head : is l.head n.id ≡ true = ap (λ z. is z n.id) h.head ∙ is_self n.id in
    let at_tail : is l.tail n.id ≡ true = ap (λ z. is z n.id) h.tail ∙ is_self n.id in
    (
      delete (record l { head = none; tail = none }) n.id,
      rw (at_head, at_tail) refl,
      record { head = refl; tail = tt; links = tt; distinct = tt; sorted = tt },
      refl,
    )
del_timer-Holds l [] n (m ∷ ms) h =
    let (c, e, links, _) = drop_head-Links l n m ms h.links h.distinct in
    let at_head : is l.head n.id ≡ true = ap (λ z. is z n.id) h.head ∙ is_self n.id in
    let at_tail : is l.tail n.id ≡ false =
      ap (λ z. is z n.id) h.tail
      ∙ is_ne (last m ms) n.id (λ z. Lacks-last n.id m ms h.distinct.0 (sym z)) in
    (
      delete (record l { head = some m.id; cells = c }) n.id,
      rw (at_head, at_tail, e) refl,
      record {
        head = refl;
        tail = h.tail;
        links = Links-update c n.id none none (m ∷ ms) h.distinct.0 links;
        distinct = h.distinct.1;
        sorted = h.sorted.1;
      },
      refl,
    )
del_timer-Holds l (k ∷ ks) n [] h =
    let (c, e, links) = drop_tail-Links l k ks n h.links h.distinct in
    let (dk, _, apart) = Distinct-append (k ∷ ks) (n ∷ []) h.distinct in
    let lacks = Apart-first (k ∷ ks) n [] apart in
    let at_head : is l.head n.id ≡ false =
      ap (λ z. is z n.id) h.head ∙ is_ne k.id n.id (λ z. lacks.0 (sym z)) in
    let at_tail : is l.tail n.id ≡ true =
      ap (λ z. is z n.id) (h.tail ∙ ap (λ z. some z) (last-append k ks n [])) ∙ is_self n.id in
    (
      delete (record l { tail = some (last k ks); cells = c }) n.id,
      rw (at_head, at_tail, e) refl,
      subst (λ z. Holds (delete (record l { tail = some (last k ks); cells = c }) n.id) z)
          (sym (append-nil (k ∷ ks)))
          (record {
            head = h.head;
            tail = refl;
            links = Links-update c n.id none none (k ∷ ks) lacks links;
            distinct = dk;
            sorted =
                subst (λ z. IsSorted z) (append-nil (k ∷ ks))
                  (append-IsSorted (k ∷ ks) n [] h.sorted);
          }),
      refl,
    )
del_timer-Holds l (k ∷ ks) n (m ∷ ms) h =
    let (c, e, links, _) = unlink-Links l k ks n m ms h.links h.distinct in
    let (dk, dn, apart) = Distinct-append (k ∷ ks) (n ∷ m ∷ ms) h.distinct in
    let lacks = Apart-first (k ∷ ks) n (m ∷ ms) apart in
    let at_head : is l.head n.id ≡ false =
      ap (λ z. is z n.id) h.head ∙ is_ne k.id n.id (λ z. lacks.0 (sym z)) in
    let the_last : l.tail ≡ some (last m ms) =
      h.tail ∙ ap (λ z. some z) (last-append k ks n (m ∷ ms)) in
    let at_tail : is l.tail n.id ≡ false =
      ap (λ z. is z n.id) the_last
      ∙ is_ne (last m ms) n.id (λ z. Lacks-last n.id m ms dn.0 (sym z)) in
    (
      delete (record l { cells = c }) n.id,
      rw (at_head, at_tail, e) refl,
      record {
        head = h.head;
        tail = the_last ∙ ap (λ z. some z) (sym (last-append k ks m ms));
        links =
            Links-update c n.id none none ((k ∷ ks) ++ m ∷ ms)
              (append-Lacks n.id (k ∷ ks) (m ∷ ms) lacks dn.0) links;
        distinct = append-Distinct (k ∷ ks) n (m ∷ ms) h.distinct;
        sorted = append-IsSorted (k ∷ ks) n (m ∷ ms) h.sorted;
      },
      refl,
    )

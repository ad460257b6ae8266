-- ===== src/TimerList/Insert.antt =====
-- `add_timer` inserts into the list.
use tiny_http.Prelude.{
  ℕ, zero, suc, ◌<◌, ◌≤◌, ◌≡◌, ◌≢◌, inl, inr, refl, sym, ap, ◌∙◌, List, [], ◌∷◌, length, Option,
  some, none, done, arith, Bool-cases, ltb, if◌then◌else◌,
}
use tiny_http.TimerList.{
  UtilTimer, Cells, update, TimerList, set_next, set_prev, insert_before, insert_last, insert_loop,
  add_behind, add_front, add_to, add_timer,
}
use tiny_http.TimerList.Links.{
  Node, timer, first, last, Links, Lacks, Distinct, Links-update, update_self, update_ne,
  set_next_lem, set_prev_lem,
}

-- Behind all timers that expire no later.
abbrev pub insert : Node → List Node → List Node
insert n [] = n ∷ []
insert n (k ∷ ks) = if ltb n.expire k.expire then n ∷ k ∷ ks else k ∷ insert n ks

module _ (l : TimerList) (n m : Node) (p a b : Option ℕ) where
  insert_last-Links :
      l.cells n.id ≡ some (timer n a b)
      → l.cells m.id ≡ some (timer m p none)
      → n.id ≢ m.id
      → (c : Cells) × (insert_last l n.id m.id ≡ done (record l { cells = c; tail = some n.id }))
        × Links c p (m ∷ n ∷ [])
        × ((k : ℕ) → k ≢ n.id → k ≢ m.id → c k ≡ l.cells k)
  unfolding insert_last
  insert_last-Links en em d =
      let c1 = update l.cells m.id (some (timer m p (some n.id))) in
      let c2 = update c1 n.id (some (timer n (some m.id) b)) in
      let c3 = update c2 n.id (some (timer n (some m.id) none)) in
      let d' : m.id ≢ n.id = λ e. d (sym e) in
      let e1 : set_next l.cells m.id (some n.id) ≡ done c1 =
        set_next_lem l.cells m.id (some n.id) em in
      let n1 : c1 n.id ≡ some (timer n a b) =
        update_ne l.cells m.id n.id (some (timer m p (some n.id))) d ∙ en in
      let e2 : set_prev c1 n.id (some m.id) ≡ done c2 = set_prev_lem c1 n.id (some m.id) n1 in
      let n2 : c2 n.id ≡ some (timer n (some m.id) b) =
        update_self c1 n.id (some (timer n (some m.id) b)) in
      let e3 : set_next c2 n.id none ≡ done c3 = set_next_lem c2 n.id none n2 in
      let m3 : c3 m.id ≡ some (timer m p (some n.id)) =
        update_ne c2 n.id m.id _ d' ∙ update_ne c1 n.id m.id _ d' ∙ update_self l.cells m.id _ in
      (
        c3,
        rw (e1, e2, e3) refl,
        (m3, (update_self c2 n.id _, tt)),
        λ k h1 h2.
            update_ne c2 n.id k _ h1 ∙ update_ne c1 n.id k _ h1 ∙ update_ne l.cells m.id k _ h2,
      )

  insert_before-Links :
      (k : Node) (ks : List Node)
      → l.cells n.id ≡ some (timer n a b)
      → Links l.cells p (m ∷ k ∷ ks)
      → Distinct (m ∷ k ∷ ks)
      → Lacks n.id (m ∷ k ∷ ks)
      → (c : Cells) × (insert_before l n.id m.id k.id ≡ done (record l { cells = c }))
        × Links c p (m ∷ n ∷ k ∷ ks)
        × ((j : ℕ) → j ≢ n.id → Lacks j (m ∷ k ∷ ks) → c j ≡ l.cells j)
  unfolding insert_before
  insert_before-Links k ks en em d h =
      let nm : n.id ≢ m.id = h.0 in
      let nk : n.id ≢ k.id = h.1.0 in
      let mk : m.id ≢ k.id = d.0.0 in
      let mn : m.id ≢ n.id = λ e. nm (sym e) in
      let kn : k.id ≢ n.id = λ e. nk (sym e) in
      let km : k.id ≢ m.id = λ e. mk (sym e) in
      let c0 = l.cells in
      let v1 : Option UtilTimer = some (timer m p (some n.id)) in
      let c1 = update c0 m.id v1 in
      let v2 : Option UtilTimer = some (timer n a (some k.id)) in
      let c2 = update c1 n.id v2 in
      let v3 : Option UtilTimer = some (timer k (some n.id) (first ks)) in
      let c3 = update c2 k.id v3 in
      let v4 : Option UtilTimer = some (timer n (some m.id) (some k.id)) in
      let c4 = update c3 n.id v4 in
      let e1 : set_next c0 m.id (some n.id) ≡ done c1 = set_next_lem c0 m.id (some n.id) em.0 in
      let e2 : set_next c1 n.id (some k.id) ≡ done c2 =
        set_next_lem c1 n.id (some k.id) (update_ne c0 m.id n.id v1 nm ∙ en) in
      let e3 : set_prev c2 k.id (some n.id) ≡ done c3 =
        set_prev_lem c2 k.id (some n.id)
          (update_ne c1 n.id k.id v2 kn ∙ update_ne c0 m.id k.id v1 km ∙ em.1.0) in
      let e4 : set_prev c3 n.id (some m.id) ≡ done c4 =
        set_prev_lem c3 n.id (some m.id) (update_ne c2 k.id n.id v3 nk ∙ update_self c1 n.id v2) in
      let at_m : c4 m.id ≡ v1 =
        update_ne c3 n.id m.id v4 mn
        ∙ update_ne c2 k.id m.id v3 mk
        ∙ update_ne c1 n.id m.id v2 mn
        ∙ update_self c0 m.id v1 in
      let at_k : c4 k.id ≡ v3 = update_ne c3 n.id k.id v4 kn ∙ update_self c2 k.id v3 in
      (
        c4,
        rw (e1, e2, e3, e4) refl,
        (
          at_m,
          (
            update_self c3 n.id v4,
            (
              at_k,
              Links-update c3 n.id v4 (some k.id) ks h.1.1 (
                  Links-update c2 k.id v3 (some k.id) ks d.1.0 (
                    Links-update c1 n.id v2 (some k.id) ks h.1.1
                      (Links-update c0 m.id v1 (some k.id) ks d.0.1 em.1.1))),
            ),
          ),
        ),
        λ j jn js.
            update_ne c3 n.id j v4 jn
            ∙ update_ne c2 k.id j v3 js.1.0
            ∙ update_ne c1 n.id j v2 jn
            ∙ update_ne c0 m.id j v1 js.0,
      )

-- What the loop leaves of a list `m ∷ ns` with `n` inserted behind `m`.
pub record Inserted (l l' : TimerList) (n m : Node) (p : Option ℕ) (ns : List Node) : Type 0 where
  pub links : Links l'.cells p (m ∷ insert n ns)
  pub head : l'.head ≡ l.head
  pub tail : l'.tail ≡ some (last m (insert n ns))
  pub called : l'.called ≡ l.called
  pub frame : (j : ℕ) → j ≢ n.id → Lacks j (m ∷ ns) → l'.cells j ≡ l.cells j

pub insert_loop-Inserted :
    (fuel : ℕ) (l : TimerList) (n m : Node) (p a b : Option ℕ) (ns : List Node)
    → l.cells n.id ≡ some (timer n a b)
    → Links l.cells p (m ∷ ns)
    → l.tail ≡ some (last m ns)
    → Distinct (m ∷ ns)
    → Lacks n.id (m ∷ ns)
    → length ns < fuel
    → (l' : TimerList) × (insert_loop fuel l n.id m.id (first ns) ≡ done l')
      × Inserted l l' n m p ns
unfolding insert_loop
insert_loop-Inserted zero l n m p a b ns en lk et d h f = absurd (omega arith)
insert_loop-Inserted (suc fuel) l n m p a b [] en lk et d h f =
    let (c, e, links, frame) = insert_last-Links l n m p a b en lk.0 h.0 in
    (
      record l { cells = c; tail = some n.id },
      e,
      record {
        links = links;
        head = refl;
        tail = refl;
        called = refl;
        frame = λ j x y. frame j x y.0;
      },
    )
insert_loop-Inserted (suc fuel) l n m p a b (k ∷ ks) en lk et d h f =
    elim (Bool-cases (ltb n.expire k.expire)) [
      | inl sooner ↦
          let (c, e, links, frame) = insert_before-Links l n m p a b k ks en lk d h in
          (
            record l { cells = c },
            rw (en, lk.1.0, sooner) e,
            record {
              links = rw sooner links;
              head = refl;
              tail = rw sooner et;
              called = refl;
              frame = frame;
            },
          )
      | inr later ↦
          let (l', e, r) =
            insert_loop-Inserted fuel l n k (some m.id) a b ks en lk.1 et d.1 h.1 (omega arith) in
          let mn : m.id ≢ n.id = λ z. h.0 (sym z) in
          (
            l',
            rw (en, lk.1.0, later) e,
            record {
              links = rw later (r.frame m.id mn d.0 ∙ lk.0, r.links);
              head = r.head;
              tail = rw later r.tail;
              called = r.called;
              frame = λ j x y. r.frame j x y.1;
            },
          )
    ]

-- All expire no sooner than `lo`.
abbrev pub AllFrom : ℕ → List Node → Type 0
AllFrom lo [] = Unit {0}
AllFrom lo (n ∷ ns) = (lo ≤ n.expire) × AllFrom lo ns

abbrev pub IsSorted : List Node → Type 0
IsSorted [] = Unit {0}
IsSorted (n ∷ ns) = AllFrom n.expire ns × IsSorted ns

pub AllFrom-le : (lo hi : ℕ) (ns : List Node) → lo ≤ hi → AllFrom hi ns → AllFrom lo ns
AllFrom-le lo hi [] h a = tt
AllFrom-le lo hi (n ∷ ns) h a = (omega (arith, a.0), AllFrom-le lo hi ns h a.1)

pub AllFrom-insert :
    (lo : ℕ) (n : Node) (ns : List Node) → lo ≤ n.expire → AllFrom lo ns → AllFrom lo (insert n ns)
AllFrom-insert lo n [] h a = (h, tt)
AllFrom-insert lo n (k ∷ ks) h a = elim (Bool-cases (ltb n.expire k.expire)) [
  | inl sooner ↦ rw sooner (h, a)
  | inr later ↦ rw later (a.0, AllFrom-insert lo n ks h a.1)
]

pub insert-IsSorted : (n : Node) (ns : List Node) → IsSorted ns → IsSorted (insert n ns)
insert-IsSorted n [] s = (tt, tt)
insert-IsSorted n (k ∷ ks) s = elim (Bool-cases (ltb n.expire k.expire)) [
  | inl sooner ↦
      let below : n.expire ≤ k.expire = ground arith in
      rw sooner ((below, AllFrom-le n.expire k.expire ks below s.0), s)
  | inr later ↦ rw later (AllFrom-insert k.expire n ks (ground arith) s.0, insert-IsSorted n ks s.1)
]

-- The list `l` holds the timers `ns`, sorted by their times. Where there is none, the tail is of no account.
abbrev pub TailIs : Option ℕ → List Node → Type 0
TailIs t [] = Unit {0}
TailIs t (n ∷ ns) = t ≡ some (last n ns)

pub record Holds (l : TimerList) (ns : List Node) : Type 0 where
  pub head : l.head ≡ first ns
  pub tail : TailIs l.tail ns
  pub links : Links l.cells none ns
  pub distinct : Distinct ns
  pub sorted : IsSorted ns

pub Lacks-insert :
    (j : ℕ) (n : Node) (ns : List Node) → j ≢ n.id → Lacks j ns → Lacks j (insert n ns)
Lacks-insert j n [] x h = (x, tt)
Lacks-insert j n (k ∷ ks) x h = elim (Bool-cases (ltb n.expire k.expire)) [
  | inl sooner ↦ rw sooner (x, h)
  | inr later ↦ rw later (h.0, Lacks-insert j n ks x h.1)
]

pub Distinct-insert :
    (n : Node) (ns : List Node) → Distinct ns → Lacks n.id ns → Distinct (insert n ns)
Distinct-insert n [] d h = (tt, tt)
Distinct-insert n (k ∷ ks) d h = elim (Bool-cases (ltb n.expire k.expire)) [
  | inl sooner ↦ rw sooner (h, d)
  | inr later ↦
      rw later (Lacks-insert k.id n ks (λ e. h.0 (sym e)) d.0, Distinct-insert n ks d.1 h.1)
]

-- add_timer of a new timer, outside a list of timers sorted by their times, with enough rounds for
-- its length, inserts it behind all timers that expire no later, keeps the list doubly linked and
-- sorted, and calls no callback.
pub add_timer-Holds :
    (fuel : ℕ) (l : TimerList) (n : Node) (ns : List Node)
    → Holds l ns
    → l.cells n.id ≡ some (timer n none none)
    → Lacks n.id ns
    → length ns ≤ fuel
    → (l' : TimerList) × (add_timer fuel l n.id ≡ done l')
      × Holds l' (insert n ns)
      × (l'.called ≡ l.called)
unfolding add_timer add_to add_behind add_front
add_timer-Holds fuel l n [] h en lk f = (
  record l { head = some n.id; tail = some n.id },
  ap (add_to fuel l n.id) h.head,
  record { head = refl; tail = refl; links = (en, tt); distinct = (tt, tt); sorted = (tt, tt) },
  refl,
)
add_timer-Holds fuel l n (m ∷ ms) h en lk f =
    let ordered = insert-IsSorted n (m ∷ ms) h.sorted in
    elim (Bool-cases (ltb n.expire m.expire)) [
      | inl sooner ↦
          let v1 : Option UtilTimer = some (timer n none (some m.id)) in
          let c1 = update l.cells n.id v1 in
          let v2 : Option UtilTimer = some (timer m (some n.id) (first ms)) in
          let c2 = update c1 m.id v2 in
          let mn : m.id ≢ n.id = λ z. lk.0 (sym z) in
          let e1 : set_next l.cells n.id (some m.id) ≡ done c1 =
            set_next_lem l.cells n.id (some m.id) en in
          let e2 : set_prev c1 m.id (some n.id) ≡ done c2 =
            set_prev_lem c1 m.id (some n.id) (update_ne l.cells n.id m.id v1 mn ∙ h.links.0) in
          (
            record l { cells = c2; head = some n.id },
            ap (add_to fuel l n.id) h.head ∙ rw (en, h.links.0, sooner, e1, e2) refl,
            rw sooner (record {
              head = refl;
              tail = h.tail;
              links = (
                update_ne c1 m.id n.id v2 lk.0 ∙ update_self l.cells n.id v1,
                (
                  update_self c1 m.id v2,
                  Links-update c1 m.id v2 (some m.id) ms h.distinct.0
                      (Links-update l.cells n.id v1 (some m.id) ms lk.1 h.links.1),
                ),
              );
              distinct = (lk, h.distinct);
              sorted = rw sooner at ordered;
            }),
            refl,
          )
      | inr later ↦
          let (l', e, r) =
            insert_loop-Inserted fuel l n m none none none ms en h.links h.tail h.distinct lk
              (omega arith) in
          (
            l',
            ap (add_to fuel l n.id) h.head ∙ rw (en, h.links.0, later) e,
            rw later (record {
              head = r.head ∙ h.head;
              tail = r.tail;
              links = r.links;
              distinct = (
                Lacks-insert m.id n ms (λ z. lk.0 (sym z)) h.distinct.0,
                Distinct-insert n ms h.distinct.1 lk.1,
              );
              sorted = rw later at ordered;
            }),
            r.called,
          )
    ]

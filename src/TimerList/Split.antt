-- ===== src/TimerList/Split.antt =====
-- A list of timers in two parts.
use tiny_http.Prelude.{ℕ, ◌≡◌, ◌≢◌, refl, sym, ap, ◌∙◌, List, [], ◌∷◌, ◌++◌, Option, some, done}
use tiny_http.TimerList.{UtilTimer, Cells, update, set_next}
use tiny_http.TimerList.Links.{
  Node, timer, first, last, Links, Lacks, Distinct, update_self, update_ne, set_next_lem,
}
use tiny_http.TimerList.Insert.{AllFrom, IsSorted}

abbrev pub first_or : List Node → Option ℕ → Option ℕ
first_or [] q = q
first_or (n ∷ ns) q = some n.id

-- The chain `ns` between `p` and `q`.
abbrev pub LinksTo : Cells → Option ℕ → Option ℕ → List Node → Type 0
LinksTo cells p q [] = Unit {0}
LinksTo cells p q (n ∷ ns) =
    (cells n.id ≡ some (timer n p (first_or ns q))) × LinksTo cells (some n.id) q ns

abbrev pub end : Option ℕ → List Node → Option ℕ
end p [] = p
end p (n ∷ ns) = end (some n.id) ns

pub first-append : (xs ys : List Node) → first (xs ++ ys) ≡ first_or xs (first ys)
first-append [] ys = refl
first-append (x ∷ xs) ys = refl

pub end-last : (p : Option ℕ) (n : Node) (ns : List Node) → end p (n ∷ ns) ≡ some (last n ns)
end-last p n [] = refl
end-last p n (m ∷ ms) = end-last (some n.id) m ms

pub last-append :
    (k : Node) (ks : List Node) (n : Node) (ns : List Node) → last k (ks ++ n ∷ ns) ≡ last n ns
last-append k [] n ns = refl
last-append k (m ∷ ms) n ns = last-append m ms n ns

pub Links-split :
    (cells : Cells) (p : Option ℕ) (xs ys : List Node)
    → Links cells p (xs ++ ys)
    → LinksTo cells p (first ys) xs × Links cells (end p xs) ys
Links-split cells p [] ys l = (tt, l)
Links-split cells p (x ∷ xs) ys l =
    let (a, b) = Links-split cells (some x.id) xs ys l.1 in
    ((l.0 ∙ ap (λ z. some (timer x p z)) (first-append xs ys), a), b)

pub Links-join :
    (cells : Cells) (p : Option ℕ) (xs ys : List Node)
    → LinksTo cells p (first ys) xs
    → Links cells (end p xs) ys
    → Links cells p (xs ++ ys)
Links-join cells p [] ys a b = b
Links-join cells p (x ∷ xs) ys a b = (
  a.0 ∙ ap (λ z. some (timer x p z)) (sym (first-append xs ys)),
  Links-join cells (some x.id) xs ys a.1 b,
)

pub LinksTo-update :
    (cells : Cells) (k : ℕ) (v : Option UtilTimer) (p q : Option ℕ) (ns : List Node)
    → Lacks k ns
    → LinksTo cells p q ns
    → LinksTo (update cells k v) p q ns
LinksTo-update cells k v p q [] h l = tt
LinksTo-update cells k v p q (n ∷ ns) h l = (
  update_ne cells k n.id v (λ e. h.0 (sym e)) ∙ l.0,
  LinksTo-update cells k v (some n.id) q ns h.1 l.1,
)

pub Lacks-last : (j : ℕ) (n : Node) (ns : List Node) → Lacks j (n ∷ ns) → j ≢ last n ns
Lacks-last j n [] h = h.0
Lacks-last j n (m ∷ ms) h = Lacks-last j m ms h.1

-- The last of a chain gets another successor.
pub relink_last :
    (cells : Cells) (p q r : Option ℕ) (k : Node) (ks : List Node)
    → Distinct (k ∷ ks)
    → LinksTo cells p q (k ∷ ks)
    → (c : Cells) × (set_next cells (last k ks) r ≡ done c)
      × LinksTo c p r (k ∷ ks)
      × ((j : ℕ) → j ≢ last k ks → c j ≡ cells j)
relink_last cells p q r k [] d l =
    let v : Option UtilTimer = some (timer k p r) in
    (
      update cells k.id v,
      set_next_lem cells k.id r l.0,
      (update_self cells k.id v, tt),
      λ j h. update_ne cells k.id j v h,
    )
relink_last cells p q r k (m ∷ ms) d l =
    let (c, e, l', frame) = relink_last cells (some k.id) q r m ms d.1 l.1 in
    (c, e, (frame k.id (Lacks-last k.id m ms d.0) ∙ l.0, l'), frame)

pub Links-frame :
    (a b : Cells) (e : ℕ) (p : Option ℕ) (ns : List Node)
    → ((j : ℕ) → j ≢ e → b j ≡ a j)
    → Lacks e ns
    → Links a p ns
    → Links b p ns
Links-frame a b e p [] f h l = tt
Links-frame a b e p (n ∷ ns) f h l =
    (f n.id (λ z. h.0 (sym z)) ∙ l.0, Links-frame a b e (some n.id) ns f h.1 l.1)

pub Lacks-append : (j : ℕ) (xs ys : List Node) → Lacks j (xs ++ ys) → Lacks j xs × Lacks j ys
Lacks-append j [] ys h = (tt, h)
Lacks-append j (x ∷ xs) ys h = let (a, b) = Lacks-append j xs ys h.1 in ((h.0, a), b)

pub append-Lacks : (j : ℕ) (xs ys : List Node) → Lacks j xs → Lacks j ys → Lacks j (xs ++ ys)
append-Lacks j [] ys a b = b
append-Lacks j (x ∷ xs) ys a b = (a.0, append-Lacks j xs ys a.1 b)

-- No timer of the one list stands in the other.
abbrev pub Apart : List Node → List Node → Type 0
Apart [] ys = Unit {0}
Apart (x ∷ xs) ys = Lacks x.id ys × Apart xs ys

pub Distinct-append :
    (xs ys : List Node) → Distinct (xs ++ ys) → Distinct xs × Distinct ys × Apart xs ys
Distinct-append [] ys d = (tt, d, tt)
Distinct-append (x ∷ xs) ys d =
    let (a, b, c) = Distinct-append xs ys d.1 in
    let (h, k) = Lacks-append x.id xs ys d.0 in ((h, a), b, (k, c))

pub append-Distinct :
    (xs : List Node) (n : Node) (ys : List Node) → Distinct (xs ++ n ∷ ys) → Distinct (xs ++ ys)
append-Distinct [] n ys d = d.1
append-Distinct (x ∷ xs) n ys d =
    let (h, k) = Lacks-append x.id xs (n ∷ ys) d.0 in
    (append-Lacks x.id xs ys h k.1, append-Distinct xs n ys d.1)

pub Apart-last : (k : Node) (ks ys : List Node) → Apart (k ∷ ks) ys → Lacks (last k ks) ys
Apart-last k [] ys a = a.0
Apart-last k (m ∷ ms) ys a = Apart-last m ms ys a.1

pub Apart-first : (xs : List Node) (n : Node) (ys : List Node) → Apart xs (n ∷ ys) → Lacks n.id xs
Apart-first [] n ys a = tt
Apart-first (x ∷ xs) n ys a = ((λ e. a.0.0 (sym e)), Apart-first xs n ys a.1)

pub Apart-rest : (xs : List Node) (n : Node) (ys : List Node) → Apart xs (n ∷ ys) → Apart xs ys
Apart-rest [] n ys a = tt
Apart-rest (x ∷ xs) n ys a = (a.0.1, Apart-rest xs n ys a.1)

AllFrom-append :
    (lo : ℕ) (xs : List Node) (n : Node) (ys : List Node)
    → AllFrom lo (xs ++ n ∷ ys)
    → AllFrom lo (xs ++ ys)
AllFrom-append lo [] n ys a = a.1
AllFrom-append lo (x ∷ xs) n ys a = (a.0, AllFrom-append lo xs n ys a.1)

pub append-IsSorted :
    (xs : List Node) (n : Node) (ys : List Node) → IsSorted (xs ++ n ∷ ys) → IsSorted (xs ++ ys)
append-IsSorted [] n ys s = s.1
append-IsSorted (x ∷ xs) n ys s = (AllFrom-append x.expire xs n ys s.0, append-IsSorted xs n ys s.1)

-- ===== src/TimerList/Links.antt =====
-- The list as a chain of cells that point to one another.
use tiny_http.Prelude.{ℕ, ◌≡◌, ◌≢◌, refl, ◌∙◌, List, [], ◌∷◌, Option, some, none, done, arith}
use tiny_http.TimerList.{UtilTimer, Cells, update, set_next, set_prev}

-- A timer with its cell.
pub record Node : Type 0 where
  pub id : ℕ
  pub expire : ℕ
  pub user : ℕ

abbrev pub timer : Node → Option ℕ → Option ℕ → UtilTimer
timer n prev next = record { expire = n.expire; user = n.user; prev = prev; next = next }

abbrev pub first : List Node → Option ℕ
first [] = none
first (n ∷ ns) = some n.id

abbrev pub last : Node → List Node → ℕ
last n [] = n.id
last n (m ∷ ms) = last m ms

-- Each node stands in its cell and points to its neighbours; `p` is in front of the first.
abbrev pub Links : Cells → Option ℕ → List Node → Type 0
Links cells p [] = Unit {0}
Links cells p (n ∷ ns) = (cells n.id ≡ some (timer n p (first ns))) × Links cells (some n.id) ns

-- No node of the list stands in the cell `k`.
abbrev pub Lacks : ℕ → List Node → Type 0
Lacks k [] = Unit {0}
Lacks k (n ∷ ns) = (k ≢ n.id) × Lacks k ns

abbrev pub Distinct : List Node → Type 0
Distinct [] = Unit {0}
Distinct (n ∷ ns) = Lacks n.id ns × Distinct ns

-- What is written to a cell outside the list leaves the list alone.
pub Links-update :
    (cells : Cells) (k : ℕ) (v : Option UtilTimer) (p : Option ℕ) (ns : List Node)
    → Lacks k ns
    → Links cells p ns
    → Links (update cells k v) p ns
Links-update cells k v p [] h l = tt
Links-update cells k v p (n ∷ ns) h l =
    let apart : k ≢ n.id = h.0 in
    let kept : update cells k v n.id ≡ cells n.id = ground arith in
    (kept ∙ l.0, Links-update cells k v (some n.id) ns h.1 l.1)

pub update_self : (cells : Cells) (k : ℕ) (v : Option UtilTimer) → update cells k v k ≡ v
update_self cells k v = ground arith

pub update_ne :
    (cells : Cells) (k j : ℕ) (v : Option UtilTimer) → j ≢ k → update cells k v j ≡ cells j
update_ne cells k j v h = ground arith

pub set_next_lem :
    (cells : Cells) (k : ℕ) (q : Option ℕ) {t : UtilTimer}
    → cells k ≡ some t
    → set_next cells k q ≡ done (update cells k (some (record t { next = q })))
unfolding set_next
set_next_lem cells k q e = rw e refl

pub set_prev_lem :
    (cells : Cells) (k : ℕ) (q : Option ℕ) {t : UtilTimer}
    → cells k ≡ some t
    → set_prev cells k q ≡ done (update cells k (some (record t { prev = q })))
unfolding set_prev
set_prev_lem cells k q e = rw e refl

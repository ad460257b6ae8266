-- ===== src/Log/Chain.antt =====
-- The nodes of the list as a chain of cells, and what a write to the heap leaves of it.
use tiny_http.Prelude.{
  ℕ, suc, ◌<◌, ◌≤◌, ◌≡◌, refl, ◌∙◌, List, [], ◌∷◌, ◌++◌, Bytes, Option, some, none, done, arith,
}
use tiny_http.Log.{Msg, Cells, update, link}

-- A node: its cell, and what it holds.
pub record Node : Type 0 where
  pub id : ℕ
  pub text : Bytes
  pub grade : ℕ

abbrev pub first : List Node → Option ℕ
first [] = none
first (n ∷ ns) = some n.id

abbrev pub last : List Node → Option ℕ
last [] = none
last (n ∷ []) = some n.id
last (n ∷ m ∷ ns) = last (m ∷ ns)

abbrev pub msg : Node → Option ℕ → Msg
msg n next = record { text = n.text; grade = n.grade; next = next }

-- Each node stands in its cell and points to the one behind it.
abbrev pub Chain : Cells → List Node → Type 0
Chain cells [] = Unit {0}
Chain cells (n ∷ ns) = (cells n.id ≡ some (msg n (first ns))) × Chain cells ns

-- The cells grow along the list, from `lo` on, and stay below `hi`.
abbrev pub Grows : ℕ → ℕ → List Node → Type 0
Grows lo hi [] = Unit {0}
Grows lo hi (n ∷ ns) = (lo ≤ n.id) × (n.id < hi) × Grows (suc n.id) hi ns

pub Grows-append :
    (ns : List Node) (lo hi : ℕ) (m : Node)
    → Grows lo hi ns
    → lo ≤ hi
    → m.id ≡ hi
    → Grows lo (suc hi) (ns ++ m ∷ [])
Grows-append [] lo hi m g l e = (omega arith, omega arith, tt)
Grows-append (n ∷ ns) lo hi m g l e =
    (g.0, omega (arith, g.1), Grows-append ns (suc n.id) hi m g.2 (omega (arith, g.1)) e)

pub last-append : (ns : List Node) (m : Node) → last (ns ++ m ∷ []) ≡ some m.id
last-append [] m = refl
last-append (n ∷ []) m = refl
last-append (n ∷ k ∷ ns) m = last-append (k ∷ ns) m

-- Linking a new node behind the last one extends the chain.
pub link-Chain :
    (cells : Cells) (n : Node) (ns : List Node) (lo hi : ℕ) (m : Node)
    → Grows lo hi (n ∷ ns)
    → m.id ≡ hi
    → Chain cells (n ∷ ns)
    → (cells' : Cells) × (link (update cells m.id (msg m none)) (last (n ∷ ns)) m.id ≡ done cells')
      × Chain cells' ((n ∷ ns) ++ m ∷ [])
      × ((k : ℕ) → k < n.id → cells' k ≡ cells k)
unfolding link
link-Chain cells n [] lo hi m g e c = (
  update (update cells m.id (msg m none)) n.id (msg n (some m.id)),
  ground (arith, c.0, g.1),
  (ground arith, (ground (arith, g.1), tt)),
  λ k h. ground (arith, g.1),
)
link-Chain cells n (k ∷ ns) lo hi m g e c =
    let (cells', l, chain, below) = link-Chain cells k ns (suc n.id) hi m g.2 e c.1 in
    (
      cells',
      l,
      (below n.id (omega (arith, g.2.0)) ∙ c.0, chain),
      λ j h. below j (omega (arith, g.2.0)),
    )

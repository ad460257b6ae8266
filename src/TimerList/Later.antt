-- ===== src/TimerList/Later.antt =====
-- A timer of the list gets another time, before `adjust_timer` moves it.
use tiny_http.Prelude.{ℕ, ◌≡◌, refl, sym, ap, ◌∙◌, List, [], ◌∷◌, ◌++◌, Option, some, none}
use tiny_http.TimerList.{UtilTimer, update, TimerList}
use tiny_http.TimerList.Links.{Node, timer, first, last, Lacks, Distinct, Links-update, update_self}
use tiny_http.TimerList.Insert.{TailIs, Holds}
use tiny_http.TimerList.Split.{
  end, LinksTo-update, Links-split, Links-join, Distinct-append, Apart-first, last-append,
}
use tiny_http.TimerList.Adjust.{Linked}

abbrev pub later : Node → ℕ → Node
later n e = record n { expire = e }

module _ (n : Node) (e : ℕ) (post : List Node) where
  first-later : (pre : List Node) → first (pre ++ n ∷ post) ≡ first (pre ++ later n e ∷ post)
  first-later [] = refl
  first-later (x ∷ pre) = refl

  Lacks-later :
      (j : ℕ) (pre : List Node) → Lacks j (pre ++ n ∷ post) → Lacks j (pre ++ later n e ∷ post)
  Lacks-later j [] h = h
  Lacks-later j (x ∷ pre) h = (h.0, Lacks-later j pre h.1)

  Distinct-later :
      (pre : List Node) → Distinct (pre ++ n ∷ post) → Distinct (pre ++ later n e ∷ post)
  Distinct-later [] d = d
  Distinct-later (x ∷ pre) d = (Lacks-later x.id pre d.0, Distinct-later pre d.1)

  last_same : (ps : List Node) → last n ps ≡ last (later n e) ps
  last_same [] = refl
  last_same (p ∷ ps) = refl

  last-later :
      (m : Node) (ms : List Node) → last m (ms ++ n ∷ post) ≡ last m (ms ++ later n e ∷ post)
  last-later m ms =
      last-append m ms n post ∙ last_same post ∙ sym (last-append m ms (later n e) post)

  TailIs-later :
      (t : Option ℕ) (pre : List Node)
      → TailIs t (pre ++ n ∷ post)
      → TailIs t (pre ++ later n e ∷ post)
  TailIs-later t [] h = h ∙ ap some (last_same post)
  TailIs-later t (x ∷ pre) h = h ∙ ap some (last-later x pre)

  -- The cell of the timer, and the list with the new time there.
  pub Holds-later :
      (l : TimerList) (pre : List Node)
      → Holds l (pre ++ n ∷ post)
      → (t : UtilTimer) × (l.cells n.id ≡ some t)
        × Linked
            (record l { cells = update l.cells n.id (some (record t { expire = e })) })
            (pre ++ later n e ∷ post)
  Holds-later l pre h =
      let (to, from) = Links-split l.cells none pre (n ∷ post) h.links in
      let (_, d, apart) = Distinct-append pre (n ∷ post) h.distinct in
      let t = timer n (end none pre) (first post) in
      let v : Option UtilTimer = some (record t { expire = e }) in
      let lacks = Apart-first pre n post apart in
      (
        t,
        from.0,
        record {
          head = h.head ∙ first-later pre;
          tail = TailIs-later l.tail pre h.tail;
          links =
              Links-join (update l.cells n.id v) none pre (later n e ∷ post)
                (LinksTo-update l.cells n.id v none (some n.id) pre lacks to)
                (
                  update_self l.cells n.id v,
                  Links-update l.cells n.id v (some n.id) post d.0 from.1,
                );
          distinct = Distinct-later pre h.distinct;
        },
      )

-- ===== src/Log/Queue.antt =====
-- The list of messages behaves as a queue.
use tiny_http.Prelude.{
  ℕ, suc, ◌+◌, ◌-◌, ◌≤◌, ◌≡◌, refl, sym, subst, true, false, List, [], ◌∷◌, ◌++◌, Bytes, length,
  length-append, some, none, done, arith, ◌==◌,
}
use tiny_http.Log.{update, LogThread, init_log_thread, log_text, append_node, push_log, take_log}
use tiny_http.Log.Chain.{
  Node, first, last, msg, Chain, Grows, Grows-append, last-append, link-Chain,
}

-- The list `t` holds the nodes `ns`, oldest first.
pub record Holds (t : LogThread) (ns : List Node) : Type 0 where
  pub head : t.head ≡ first ns
  pub tail : t.tail ≡ last ns
  pub size : t.size ≡ length ns
  pub lo : ℕ
  pub grows : Grows lo t.fresh ns
  pub above : lo ≤ t.fresh
  pub chain : Chain t.cells ns

pub Holds-init : Holds init_log_thread []
Holds-init = record {
  head = refl;
  tail = refl;
  size = refl;
  lo = 0;
  grows = tt;
  above = omega arith;
  chain = tt;
}

new_node : LogThread → Bytes → ℕ → Node
new_node t text grade = record { id = t.fresh; text = text; grade = grade }

append_node-Holds :
    (t : LogThread) (ns : List Node) (text : Bytes) (grade : ℕ)
    → Holds t ns
    → (t' : LogThread) × (append_node t (record { text = text; grade = grade; next = none })
        ≡ done t')
      × Holds t' (ns ++ new_node t text grade ∷ [])
unfolding append_node new_node
append_node-Holds t [] text grade h =
    let n : Node = record { id = t.fresh; text = text; grade = grade } in
    let empty : (t.size == 0) ≡ true = ground (arith, h.size) in
    (
      record {
        head = some t.fresh;
        tail = some t.fresh;
        size = t.size + 1;
        cells = update t.cells t.fresh (msg n none);
        fresh = t.fresh + 1;
      },
      rw empty refl,
      record {
        head = refl;
        tail = refl;
        size = omega (arith, h.size);
        lo = h.lo;
        grows = (h.above, omega arith, tt);
        above = omega (arith, h.above);
        chain = (ground arith, tt);
      },
    )
append_node-Holds t (k ∷ ns) text grade h =
    let n : Node = record { id = t.fresh; text = text; grade = grade } in
    let more : (t.size == 0) ≡ false = ground (arith, h.size) in
    let (cells, l, chain, _) = link-Chain t.cells k ns h.lo t.fresh n h.grows refl h.chain in
    (
      record t { tail = some t.fresh; size = t.size + 1; cells = cells; fresh = t.fresh + 1 },
      rw (more, h.tail, l) refl,
      record {
        head = h.head;
        tail = sym (last-append (k ∷ ns) n);
        size = omega (arith, h.size, length-append (k ∷ ns) (n ∷ []));
        lo = h.lo;
        grows =
            subst (λ z. Grows h.lo z ((k ∷ ns) ++ n ∷ [])) (omega arith)
              (Grows-append (k ∷ ns) h.lo t.fresh n h.grows h.above refl);
        above = omega (arith, h.above);
        chain = chain;
      },
    )

-- If the list holds some nodes, oldest first, and the text of the grade, the reason and the message
-- fit 128 bytes, push_log leaves a list that holds those nodes and behind them one with that text
-- and grade.
pub push_log-Holds :
    (t : LogThread) (ns : List Node) (reason str : Bytes) (grade : ℕ) {text : Bytes}
    → Holds t ns
    → log_text reason str grade ≡ done text
    → (t' : LogThread) × (n : Node) × (push_log t reason str grade ≡ done t')
      × Holds t' (ns ++ n ∷ [])
      × (n.text ≡ text)
      × (n.grade ≡ grade)
unfolding push_log new_node
push_log-Holds t ns reason str grade {text} h e =
    let (t', p, q) = append_node-Holds t ns text grade h in
    (t', new_node t text grade, rw e p, q, refl, refl)

-- If the list holds a node and others behind it, the step of log_work takes that node, and the list
-- then holds the others.
pub take_log-Holds :
    (t : LogThread) (n : Node) (ns : List Node)
    → Holds t (n ∷ ns)
    → (t' : LogThread) × (take_log t ≡ done (msg n (first ns), t')) × Holds t' ns
unfolding take_log
take_log-Holds t n [] h =
    let size : (t.size - 1 == 0) ≡ true = ground (arith, h.size) in
    (
      record t { head = none; tail = none; size = t.size - 1 },
      rw (h.head, h.chain.0, size) refl,
      record {
        head = refl;
        tail = refl;
        size = omega (arith, h.size);
        lo = h.lo;
        grows = tt;
        above = h.above;
        chain = tt;
      },
    )
take_log-Holds t n (k ∷ ns) h =
    let size : (t.size - 1 == 0) ≡ false = ground (arith, h.size) in
    (
      record t { head = some k.id; size = t.size - 1 },
      rw (h.head, h.chain.0, size) refl,
      record {
        head = refl;
        tail = h.tail;
        size = omega (arith, h.size);
        lo = suc n.id;
        grows = h.grows.2;
        above = omega (arith, h.grows.1);
        chain = h.chain.1;
      },
    )

-- ===== src/ThreadPool/System/Safety.antt =====
-- What the counts say of a thread at its next step.
use tiny_http.Prelude.{
  ℕ, ◌+◌, ◌≤◌, ◌≡◌, ◌≢◌, ap, subst, Bool, List, [], ◌∷◌, ◌++◌, length, Option, some, none, fault,
  arith, inl, inr,
}
use tiny_http.Prelude.Int.{ℤ}
use tiny_http.Locks.{wait, post, lock, unlock}
use tiny_http.ConnectionPool.{ConnectionPool, take_conn, give_conn}
use tiny_http.ConnectionPool.Laws.{IsSound, List-cases}
use tiny_http.ThreadPool.{
  ThreadPool, threadpool, Pc, idle, woken, asking, waiting, reserved, serving, releasing, posting,
  stopped, Shared, turn,
}
use tiny_http.ThreadPool.Weights.{total, total-append, held_of, count}
use tiny_http.ThreadPool.System.{System, Counts}
use tiny_http.ThreadPool.System.Invariant.{
  Inv, pending, Split, Whole, Split_of_Whole, Reach, Reach-Inv, start, start-Inv,
}

turn-ne-fault :
    {conns : List ℕ} {max w v u h : ℕ} {hc : ℕ → ℕ} {asked : List (Option ℕ)} (s : Shared) (p : Pc)
    → Counts conns max w v u h hc asked s p
    → turn s p ≢ fault
unfolding turn wait post take_conn give_conn unlock lock
turn-ne-fault s idle k = λ e. cc
turn-ne-fault s woken k = ground arith
turn-ne-fault s (asking r) k = λ e. cc
turn-ne-fault s (waiting r) k = λ e. cc
turn-ne-fault s (reserved r) k = elim (List-cases s.conns.conn_list) [
  | inl q ↦ absurd (omega (arith, k.list, ap length q))
  | inr (c, rest, q) ↦ ground arith
]
turn-ne-fault s (serving r con) k = λ e. cc
turn-ne-fault s (releasing none) k = λ e. cc
turn-ne-fault s (releasing (some con)) k = ground arith
turn-ne-fault s posting k = λ e. cc
turn-ne-fault s stopped k = λ e. cc

module _ (create detach : ℕ → Bool) (n m : ℤ) {c : ConnectionPool} {q : ThreadPool}
    (sound : IsSound 0 c) (new : threadpool create detach n m ≡ some q) where
  Reached : {s : System} → Reach (start c q) s → Inv c.conn_list q.max_requests s
  Reached r = Reach-Inv (omega (arith, sound.fits)) (start-Inv c q create detach n m sound new) r

  At :
      (pre : List Pc) (p : Pc) (behind : List Pc) (s : System)
      → Reach (start c q) s
      → s.threads ≡ pre ++ p ∷ behind
      → Split c.conn_list q.max_requests (pending s.adding) s.asked s.shared pre p behind
  At pre p behind s r e =
      Split_of_Whole c.conn_list q.max_requests (pending s.adding) s.asked s.shared pre p behind (
        subst
          (λ threads.
            Whole c.conn_list q.max_requests (pending s.adding) s.asked s.shared pre p behind
              threads)
          e (Reached r))

  -- From new pools, whatever the order in which the threads and the caller of append take their
  -- steps, where a read of a list's size outside its lock counts as one step: no thread takes the
  -- front of an empty list or unlocks a mutex that is not locked, and a thread that was woken finds
  -- a request.
  pub Reach-turn :
      {s : System} (pre : List Pc) (p : Pc) (behind : List Pc)
      → Reach (start c q) s
      → s.threads ≡ pre ++ p ∷ behind
      → (turn s.shared p ≢ fault) × (p ≡ woken → s.shared.pool.work_queue ≢ [])
  Reach-turn {s} pre p behind r e =
      let k = At pre p behind s r e in
      (
        turn-ne-fault s.shared p k,
        λ w none_there. absurd (
            omega (
              arith,
              (subst
                  (λ p.
                    Split c.conn_list q.max_requests (pending s.adding) s.asked s.shared pre p
                      behind)
                  w k).queue,
              ap length none_there,
            )),
      )

  -- In any state that is reached from new pools, the requests are taken from the queue in the order
  -- in which they were added, each once, and the queue holds at most one request more than
  -- m_max_requests.
  pub Reach-order :
      {s : System}
      → Reach (start c q) s
      → (s.shared.taken ++ s.shared.pool.work_queue ≡ s.asked)
        × (length s.shared.pool.work_queue ≤ q.max_requests + 1)
  Reach-order r = let k = Reached r in (k.order, k.bound)

  -- If the pool's connections differ from one another, no two threads hold the same one, in any
  -- state that is reached from new pools.
  pub Reach-exclusive :
      {s : System} (pre : List Pc) (p : Pc) (between : List Pc) (p' : Pc) (behind : List Pc)
      (con : ℕ)
      → ((d : ℕ) → count d c.conn_list ≤ 1)
      → Reach (start c q) s
      → s.threads ≡ pre ++ ((p ∷ between) ++ p' ∷ behind)
      → held_of con p ≡ 1
      → held_of con p' ≡ 0
  Reach-exclusive {s} pre p between p' behind con distinct r e one_held =
      let k = Reached r in
      let sum : total (held_of con) s.threads
          ≡ total (held_of con) (pre ++ ((p ∷ between) ++ p' ∷ behind)) =
        ap (total (held_of con)) e in
      let each : count con s.shared.conns.conn_list + (total (held_of con) s.threads + 0)
          ≡ count con c.conn_list =
        k.each con in
      let split = total-append (held_of con) pre ((p ∷ between) ++ p' ∷ behind) in
      let split' = total-append (held_of con) (p ∷ between) (p' ∷ behind) in
      omega (arith, sum, each, split, split', distinct con)

-- ===== src/ThreadPool/System.antt =====
-- The threads of the pool and the thread that calls `append`, interleaved in any order.
pub mod Invariant
pub mod Safety
pub mod Connected
use tiny_http.Prelude.{
  ℕ, zero, suc, ◌+◌, ◌^◌, ◌<◌, ◌≤◌, ◌≡◌, ◌≢◌, ◌⊎◌, refl, sym, ap, ◌∙◌, subst, Bool, true, false,
  List, [], ◌∷◌, ◌++◌, append_assoc, append-nil, length, length-append, Run, Option, some, none,
  done, fault, ◌>>=◌, arith, Bool-cases, ltb, inl, inr, replicate, if◌then◌else◌, ◌==◌,
}
use tiny_http.Locks.{wait, post, lock, unlock}
use tiny_http.ConnectionPool.{ConnectionPool, inc32, dec32, take_conn, give_conn}
use tiny_http.ConnectionPool.Laws.{IsSound, List-cases}
use tiny_http.ThreadPool.{
  ThreadPool, enqueue, post_stat, Pc, idle, woken, asking, waiting, reserved, serving, releasing,
  posting, stopped, Shared, pop_locked, turn,
}
use tiny_http.ThreadPool.Weights.{
  total, total-append, woken_count, reserved_count, posting_count, held, held_of, one, one_of,
  count, count-snoc,
}

-- `adding` says that the thread that calls `append` is in front of its `post`; `asked` holds the
-- requests that it has added.
pub record System : Type 0 where
  pub shared : Shared
  pub threads : List Pc
  pub adding : Bool
  pub asked : List (Option ℕ)

abbrev pub with_pool : System → ThreadPool → Shared
with_pool s q = record s.shared { pool = q }

pub data Step (s : System) : System → Type 0 where
  works :
      (pre : List Pc) (p p' : Pc) (behind : List Pc) (sh : Shared)
      → s.threads ≡ pre ++ p ∷ behind
      → turn s.shared p ≡ done (some (sh, p'))
      → Step s (record s { shared = sh; threads = pre ++ p' ∷ behind })
  adds :
      (r : Option ℕ) (q : ThreadPool)
      → s.adding ≡ false
      → enqueue s.shared.pool r ≡ done (true, q)
      → Step s (record s { shared = with_pool s q; adding = true; asked = s.asked ++ r ∷ [] })
  refuses :
      (r : Option ℕ) (q : ThreadPool)
      → s.adding ≡ false
      → enqueue s.shared.pool r ≡ done (false, q)
      → Step s (record s { shared = with_pool s q })
  posts :
      s.adding ≡ true
      → Step s (record s { shared = with_pool s (post_stat s.shared.pool); adding = false })

-- What the counters and the lists say, seen from a thread at `p`, where the other threads and the
-- caller of `append` account for the numbers `w`, `v`, `u`, `h` and `hc`.
pub record Counts (conns : List ℕ) (max w v u h : ℕ) (hc : ℕ → ℕ) (asked : List (Option ℕ))
    (s : Shared) (p : Pc) : Type 0 where
  pub queue : length s.pool.work_queue ≡ s.pool.queue_stat + (w + woken_count p)
  pub list :
      length s.conns.conn_list ≡ s.conns.reserve + (v + reserved_count p) + (u + posting_count p)
  pub all : length s.conns.conn_list + (h + held p) ≡ length conns
  pub each : (c : ℕ) → count c s.conns.conn_list + (hc c + held_of c p) ≡ count c conns
  pub free : s.conns.free_conn ≡ length s.conns.conn_list
  pub used : s.conns.cur_conn ≡ h + held p
  pub unlocked : s.conns.locked ≡ false
  pub unlocked_queue : s.pool.queue_locked ≡ false
  pub order : s.taken ++ s.pool.work_queue ≡ asked
  pub maximum : s.pool.max_requests ≡ max
  pub bound : length s.pool.work_queue ≤ max + 1

abbrev Queued : List (Option ℕ) → Type 0
Queued q =
    (q ≡ [])
    ⊎ (((rest : List (Option ℕ)) × (q ≡ none ∷ rest))
        ⊎ ((r : ℕ) × (rest : List (Option ℕ)) × (q ≡ some r ∷ rest)))

Queued-cases : (q : List (Option ℕ)) → Queued q
Queued-cases [] = inl refl
Queued-cases (none ∷ rest) = inr (inl (rest, refl))
Queued-cases (some r ∷ rest) = inr (inr (r, rest, refl))

module _ (conns : List ℕ) (small : length conns < 2 ^ 32) (max w v u h : ℕ) (hc : ℕ → ℕ)
    (asked : List (Option ℕ)) where
  pub turn-Counts :
      (s : Shared) (p : Pc) (s' : Shared) (p' : Pc)
      → Counts conns max w v u h hc asked s p
      → turn s p ≡ done (some (s', p'))
      → Counts conns max w v u h hc asked s' p'
  unfolding turn wait post take_conn give_conn unlock lock
  turn-Counts s idle s' p' k e = ground arith
  turn-Counts s woken s' p' k e = elim (Queued-cases s.pool.work_queue) [
    | inl q ↦ absurd (omega (arith, k.queue, ap length q))
    | inr (inl (rest, q)) ↦
        ground (arith, ap (length {A = Option ℕ}) q, append_assoc s.taken (none ∷ []) rest)
    | inr (inr (r, rest, q)) ↦
        ground (arith, ap (length {A = Option ℕ}) q, append_assoc s.taken (some r ∷ []) rest)
  ]
  turn-Counts s (asking r) s' p' k e = ground arith
  turn-Counts s (waiting r) s' p' k e = ground arith
  turn-Counts s (reserved r) s' p' k e = elim (List-cases s.conns.conn_list) [
    | inl q ↦ absurd (omega (arith, k.list, ap length q))
    | inr (c, rest, q) ↦ ground (arith, ap (length {A = ℕ}) q)
  ]
  turn-Counts s (serving r con) s' p' k e = ground arith
  turn-Counts s (releasing none) s' p' k e = ground arith
  turn-Counts s (releasing (some con)) s' p' k e = ground (
    arith,
    length-append s.conns.conn_list (con ∷ []),
    λ (c : ℕ). count-snoc c con s.conns.conn_list,
  )
  turn-Counts s posting s' p' k e = ground arith
  turn-Counts s stopped s' p' k e = cc

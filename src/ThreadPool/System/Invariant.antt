-- ===== src/ThreadPool/System/Invariant.antt =====
-- What holds in every state that the threads reach.
use tiny_http.Prelude.{
  ℕ, zero, suc, ◌+◌, ◌^◌, ◌<◌, ◌≡◌, refl, sym, ap, subst, Bool, true, false, List, [], ◌∷◌, ◌++◌,
  append_assoc, length, length-append, Option, some, done, arith, replicate, if◌then◌else◌,
}
use tiny_http.Prelude.Int.{ℤ, pos, negsuc}
use tiny_http.Locks.{post, lock, unlock}
use tiny_http.ConnectionPool.{ConnectionPool}
use tiny_http.ConnectionPool.Laws.{IsSound}
use tiny_http.ThreadPool.{ThreadPool, threadpool, enqueue, post_stat, Pc, idle, stopped, Shared}
use tiny_http.ThreadPool.Weights.{
  total, total-append, woken_count, reserved_count, posting_count, held, held_of,
}
use tiny_http.ThreadPool.System.{
  System, with_pool, Step, works, adds, refuses, posts, Counts, turn-Counts,
}

abbrev pub pending : Bool → ℕ
pending adding = if adding then 1 else 0

-- The counts of all threads: `stopped` accounts for nothing.
abbrev pub Inv : List ℕ → ℕ → System → Type 0
Inv conns max s =
    Counts conns max (pending s.adding + total woken_count s.threads)
      (total reserved_count s.threads) (total posting_count s.threads) (total held s.threads)
      (λ c. total (held_of c) s.threads) s.asked s.shared stopped

module _ (conns : List ℕ) (max n : ℕ) (asked : List (Option ℕ)) (sh : Shared) (pre : List Pc)
    (p : Pc) (behind : List Pc) where
  -- The numbers that the other threads account for.
  abbrev pub others : (Pc → ℕ) → ℕ
  others w = total w pre + total w behind

  abbrev pub Split : Type 0
  Split =
      Counts conns max (n + others woken_count) (others reserved_count) (others posting_count)
        (others held) (λ c. others (held_of c)) asked sh p

  abbrev pub Whole : List Pc → Type 0
  Whole threads =
      Counts conns max (n + total woken_count threads) (total reserved_count threads)
        (total posting_count threads) (total held threads) (λ c. total (held_of c) threads) asked sh
        stopped

  around : (w : Pc → ℕ) → total w (pre ++ p ∷ behind) ≡ others w + w p
  around w = omega (arith, total-append w pre (p ∷ behind))

  pub Split_of_Whole : Whole (pre ++ p ∷ behind) → Split
  Split_of_Whole k = record {
    queue = omega (arith, k.queue, around woken_count);
    list = omega (arith, k.list, around reserved_count, around posting_count);
    all = omega (arith, k.all, around held);
    each = λ c. omega (arith, k.each c, around (held_of c));
    free = k.free;
    used = omega (arith, k.used, around held);
    unlocked = k.unlocked;
    unlocked_queue = k.unlocked_queue;
    order = k.order;
    maximum = k.maximum;
    bound = k.bound;
  }

  Whole-of_Split : Split → Whole (pre ++ p ∷ behind)
  Whole-of_Split k = record {
    queue = omega (arith, k.queue, around woken_count);
    list = omega (arith, k.list, around reserved_count, around posting_count);
    all = omega (arith, k.all, around held);
    each = λ c. omega (arith, k.each c, around (held_of c));
    free = k.free;
    used = omega (arith, k.used, around held);
    unlocked = k.unlocked;
    unlocked_queue = k.unlocked_queue;
    order = k.order;
    maximum = k.maximum;
    bound = k.bound;
  }

enqueue-Counts :
    (conns : List ℕ) (max w v u h : ℕ) (hc : ℕ → ℕ) (asked : List (Option ℕ)) (s : Shared)
    (r : Option ℕ) (added : Bool) (q : ThreadPool)
    → Counts conns max (pending false + w) v u h hc asked s stopped
    → enqueue s.pool r ≡ done (added, q)
    → Counts conns max
        (pending added + w)
        v
        u
        h
        hc
        (if added then asked ++ r ∷ [] else asked)
        (record s { pool = q })
        stopped
unfolding enqueue lock unlock
enqueue-Counts conns max w v u h hc asked s r true q k e = ground (
  arith,
  length-append s.pool.work_queue (r ∷ []),
  append_assoc s.taken s.pool.work_queue (r ∷ []),
)
enqueue-Counts conns max w v u h hc asked s r false q k e = ground arith

-- The counts where `adding` is `b`.
abbrev Seen : List ℕ → ℕ → Bool → System → Shared → Type 0
Seen conns max b s sh =
    Counts conns max (pending b + total woken_count s.threads) (total reserved_count s.threads)
      (total posting_count s.threads) (total held s.threads) (λ c. total (held_of c) s.threads)
      s.asked sh stopped

With :
    {conns : List ℕ} {max : ℕ} (s : System) {b : Bool}
    → s.adding ≡ b
    → Inv conns max s
    → Seen conns max b s s.shared
With {conns} {max} s e k = subst (λ b. Seen conns max b s s.shared) e k

post_stat-Counts :
    {conns : List ℕ} (w : ℕ) {max v u h : ℕ} {hc : ℕ → ℕ} {asked : List (Option ℕ)} {s : Shared}
    → Counts conns max (pending true + w) v u h hc asked s stopped
    → Counts conns max
        (pending false + w)
        v
        u
        h
        hc
        asked
        (record s { pool = post_stat s.pool })
        stopped
unfolding post
post_stat-Counts w k = ground arith

-- Every step of a thread, or of append, keeps the counts: the entries of the queue, the connections
-- and the two semaphores add up.
pub Step-Inv :
    {conns : List ℕ} {max : ℕ} {s t : System}
    → length conns < 2 ^ 32
    → Step s t
    → Inv conns max s
    → Inv conns max t
Step-Inv {conns} {max} {s} small (works pre p p' behind sh e t) k =
    Whole-of_Split conns max (pending s.adding) s.asked sh pre p' behind (
      turn-Counts conns small max _ _ _ _ _ s.asked s.shared p sh p'
        (Split_of_Whole conns max (pending s.adding) s.asked s.shared pre p behind (
          subst
            (λ threads. Whole conns max (pending s.adding) s.asked s.shared pre p behind threads) e
            k))
        t)
Step-Inv {conns} {max} {s} small (adds r q a e) k =
    enqueue-Counts conns max _ _ _ _ _ s.asked s.shared r true q (With s a k) e
Step-Inv {conns} {max} {s} small (refuses r q a e) k =
    subst (λ b. Seen conns max b s (with_pool s q)) (sym a)
      (enqueue-Counts conns max _ _ _ _ _ s.asked s.shared r false q (With s a k) e)
Step-Inv {conns} {max} {s} small (posts a) k =
    post_stat-Counts (total woken_count s.threads) (With s a k)

pub data Reach (start : System) : System → Type 0 where
  here : Reach start start
  next : {s t : System} → Reach start s → Step s t → Reach start t

pub Reach-Inv :
    {conns : List ℕ} {max : ℕ} {start s : System}
    → length conns < 2 ^ 32
    → Inv conns max start
    → Reach start s
    → Inv conns max s
Reach-Inv small k here = k
Reach-Inv small k (next r st) = Step-Inv small st (Reach-Inv small k r)

threadpool_new :
    (create detach : ℕ → Bool) (n m : ℤ) {q : ThreadPool}
    → threadpool create detach n m ≡ some q
    → (q.work_queue ≡ []) × (q.queue_locked ≡ false) × (q.queue_stat ≡ 0)
unfolding threadpool
threadpool_new create detach (negsuc n) m e = cc
threadpool_new create detach (pos n) (negsuc m) e = cc
threadpool_new create detach (pos n) (pos m) e = ground arith

-- New pools, and the threads before their first step.
abbrev pub start : ConnectionPool → ThreadPool → System
start c q = record {
  shared = record { pool = q; conns = c; taken = []; served = [] };
  threads = replicate q.thread_number idle;
  adding = false;
  asked = [];
}

total-idle : (w : Pc → ℕ) (n : ℕ) → w idle ≡ 0 → total w (replicate n idle) ≡ 0
total-idle w zero h = refl
total-idle w (suc n) h = omega (arith, h, total-idle w n h)

pub start-Inv :
    (c : ConnectionPool) (q : ThreadPool) (create detach : ℕ → Bool) (n m : ℤ)
    → IsSound 0 c
    → threadpool create detach n m ≡ some q
    → Inv c.conn_list q.max_requests (start c q)
start-Inv c q create detach n m h e =
    let (empty, free, no_post) = threadpool_new create detach n m e in
    record {
      queue = omega (arith, ap length empty, no_post, total-idle woken_count q.thread_number refl);
      list = omega (
        arith,
        h.reserve,
        total-idle reserved_count q.thread_number refl,
        total-idle posting_count q.thread_number refl,
      );
      all = omega (arith, total-idle held q.thread_number refl);
      each = λ c'. omega (arith, total-idle (held_of c') q.thread_number refl);
      free = h.free;
      used = omega (arith, h.used, total-idle held q.thread_number refl);
      unlocked = h.unlocked;
      unlocked_queue = free;
      order = empty;
      maximum = refl;
      bound = omega (arith, ap length empty);
    }

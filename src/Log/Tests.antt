-- ===== src/Log/Tests.antt =====
-- Runs of version_02's log, and the theorems at concrete inputs.
use tiny_http.Prelude.{
  ℕ, ◌≡◌, refl, [], ◌∷◌, ◌++◌, Bytes, some, none, done, arith, codes, replicate,
}
use tiny_http.Libc.{Buf, load, store}
use tiny_http.Log.{
  LogThread, init_log_thread, update, log_grade, log_text, push_log, take_log, add_logbuf,
}
use tiny_http.Log.Chain.{Node, msg}
use tiny_http.Log.Queue.{Holds, Holds-init, push_log-Holds, take_log-Holds}

abbrev text : Bytes
text = codes " [info]: Success connect\n\n"

text-grade : log_text (codes "Success") (codes " connect\n\n") 0 ≡ done text
unfolding log_text log_grade
text-grade = refl

push_log-Holds_example :
    (t' : LogThread) × (n : Node) × (push_log init_log_thread
        (codes "Success")
        (codes " connect\n\n")
        0
      ≡ done t')
    × Holds t' (n ∷ [])
    × (n.text ≡ text)
    × (n.grade ≡ 0)
push_log-Holds_example =
    push_log-Holds init_log_thread [] (codes "Success") (codes " connect\n\n") 0 Holds-init
      text-grade

abbrev node : ℕ → Node
node k = record { id = k; text = text; grade = 0 }

-- two messages
abbrev two : LogThread
two = record {
  head = some 0;
  tail = some 1;
  size = 2;
  cells = update (update (λ k. none) 0 (msg (node 0) (some 1))) 1 (msg (node 1) none);
  fresh = 2;
}

two-Holds : Holds two (node 0 ∷ node 1 ∷ [])
two-Holds = record {
  head = refl;
  tail = refl;
  size = refl;
  lo = 0;
  grows = (omega arith, omega arith, (omega arith, omega arith, tt));
  above = omega arith;
  chain = (refl, (refl, tt));
}

take_log-Holds_example :
    (t' : LogThread) × (take_log two ≡ done (msg (node 0) (some 1), t')) × Holds t' (node 1 ∷ [])
take_log-Holds_example = take_log-Holds two (node 0) (node 1 ∷ []) two-Holds

-- In a buffer of zeros one byte of each string is kept.
abbrev zeros : Buf
zeros = replicate 8 0

abbrev stamp : Bytes
stamp = codes "2021-04-06-21-13-48" ++ 0 ∷ []

abbrev label : Bytes
label = codes " [info]: " ++ 0 ∷ []

abbrev stamped : ℕ × Buf
stamped = (1, b'2' ∷ replicate 7 0)

abbrev labelled : ℕ × Buf
labelled = (1, b' ' ∷ replicate 7 0)

add_logbuf-stamp : add_logbuf zeros stamp 0 ≡ done stamped
unfolding add_logbuf store load
add_logbuf-stamp = refl

add_logbuf-label : add_logbuf zeros label 0 ≡ done labelled
unfolding add_logbuf store load
add_logbuf-label = refl

-- ===== src/Log.antt =====
-- version_02/bin/log.c: the list of messages between the threads that log and the thread that
-- writes the file, on an explicit heap. Each function is the part of the source that runs with the
-- lock held, or that one thread alone runs.
pub mod Chain
pub mod Queue
pub mod Buffer
mod Tests
use tiny_http.Prelude.{
  ℕ, zero, suc, ◌+◌, ◌-◌, ◌*◌, ◌/◌, ◌%◌, ◌^◌, ◌<◌, ◌≤◌, ◌≡◌, ◌≢◌, ◌↔◌, ◌⊎◌, inl, inr, refl, sym, ap,
  ◌∙◌, subst, Bool, true, false, List, [], ◌∷◌, ◌++◌, append_assoc, append-nil, Bytes, length,
  length-append, take, drop, length-drop, Run, Option, some, none, replicate, done, fault, timeout,
  ◌>>=◌, >>=-eq-done, >>=-ne-timeout, arith, Bool-cases, leb, ltb, lt→ltb, not, ◌&&◌, ◌||◌, ◌==◌,
  if◌then◌else◌, codes, String,
}
use tiny_http.Libc.{Buf, load, store}

-- `msglog_t`; a pointer is the number of a cell, or `none` for NULL
pub record Msg : Type 0 where
  pub text : Bytes
  pub grade : ℕ
  pub next : Option ℕ

abbrev pub Cells : Type 0
Cells = ℕ → Option Msg

-- p->... = ... for a cell
abbrev pub update : Cells → ℕ → Msg → Cells
update cells k v j = if j == k then some v else cells j

-- `log_thread_t`, with the heap that its pointers reach into; `fresh` is the cell that `malloc`
-- gives next. No cell is ever freed.
pub record LogThread : Type 0 where
  pub head : Option ℕ
  pub tail : Option ℕ
  pub size : ℕ
  pub cells : Cells
  pub fresh : ℕ

abbrev pub init_log_thread : LogThread
init_log_thread = record { head = none; tail = none; size = 0; cells = λ k. none; fresh = 0 }

-- `log_grade`
unfoldable pub log_grade : ℕ → Run Bytes
log_grade grade =
    if grade == 0
    then done (codes " [info]: ")
    else if grade == 1
    then done (codes " [debug]: ")
    else if grade == 2
    then done (codes " [warn]: ")
    else if grade == 3
    then done (codes " [error]: ")
    else fault

-- `strcpy` and `strcat` into `msg[128]`; `reason` is what `strerror` gives
unfoldable pub log_text : Bytes → Bytes → ℕ → Run Bytes
log_text reason str grade = do
  label ← log_grade grade
  let text = label ++ (reason ++ str)
  if ltb (length text) 128 then done text else fault

-- `tail->next = id`
unfoldable pub link : Cells → Option ℕ → ℕ → Run Cells
link cells none id = fault
link cells (some tail) id = elim (cells tail) [
  | none ↦ fault
  | some m ↦ done (update cells tail (record m { next = some id }))
]

-- the new node `id` at the end of the list
unfoldable pub append_node : LogThread → Msg → Run LogThread
append_node t m =
    let id = t.fresh in
    let cells = update t.cells id m in
    let linked = (do
      cells' ← link cells t.tail id
      done (record t { tail = some id; size = t.size + 1; cells = cells'; fresh = id + 1 })) in
    if t.size == 0
    then done (record {
      head = some id;
      tail = some id;
      size = t.size + 1;
      cells = cells;
      fresh = id + 1;
    })
    else linked

unfoldable pub push_log : LogThread → Bytes → Bytes → ℕ → Run LogThread
push_log t reason str grade = do
  text ← log_text reason str grade
  append_node t (record { text = text; grade = grade; next = none })

-- `*p`
abbrev cell : Cells → Option ℕ → Run Msg
cell cells none = fault
cell cells (some k) = elim (cells k) [ none ↦ fault | some m ↦ done m ]

-- In `log_work`, when the list is not empty: the node at the head, and the list without it.
unfoldable pub take_log : LogThread → Run (Msg × LogThread)
take_log t = do
  m ← cell t.cells t.head
  let size = t.size - 1
  let rest : LogThread =
      (if size == 0
        then record t { head = none; tail = none; size = size }
        else record t { head = m.next; size = size })
  done (m, rest)

-- `add_logbuf`: the loop tests the byte of `buf` behind the one just written, not the byte of `p`.
-- The new index and buffer.
unfoldable pub add_logbuf : Buf → Buf → ℕ → Run (ℕ × Buf)
add_logbuf buf [] index = fault
add_logbuf buf (c ∷ p) index = do
  buf' ← store buf index c
  next ← load buf' (index + 1)
  let more = add_logbuf buf' p (index + 1)
  if next == 0 then done (index + 1, buf') else more

-- ===== src/ServerLog.antt =====
-- version_03/log/log.cpp: the log of the server. Each function is what one thread does; fopen is a
-- parameter.
pub mod Files
mod Tests
use tiny_http.Prelude.{
  ℕ, zero, suc, ◌+◌, ◌-◌, ◌/◌, ◌%◌, ◌≡◌, Bool, true, false, not, List, [], ◌∷◌, ◌++◌, Bytes, length,
  take, replicate, Run, Option, some, none, done, fault, ◌>>=◌, leb, ltb, ◌==◌, ◌&&◌, if◌then◌else◌,
  codes,
}
use tiny_http.Prelude.Int.{ℤ, pos, negsuc}
use tiny_http.Libc.{print_int, behind_last}
use tiny_http.BlockQueue.{BlockQueue, block_queue, is_full, push}

-- `struct tm` with 1900 added to the year and 1 to the month, and `tv_usec`.
pub record Tm : Type 0 where
  pub year : ℕ
  pub mon : ℕ
  pub mday : ℕ
  pub hour : ℕ
  pub min : ℕ
  pub sec : ℕ
  pub usec : ℕ

-- `Log`: `file` is the name of the file that `m_fp` writes to, `none` for NULL, and `written` each text
-- that was written with the name of its file. The queue is there if the log is asynchronous.
pub record ServerLog : Type 0 where
  pub dir_name : Bytes
  pub log_name : Bytes
  pub buf_size : ℕ
  pub max_lines : ℕ
  pub count : ℕ
  pub today : ℕ
  pub file : Option Bytes
  pub queue : Option (BlockQueue Bytes)
  pub written : List (Bytes × Bytes)

-- `get_instance` on its first call: the names are arrays of a static object.
abbrev pub new_log : ServerLog
new_log = record {
  dir_name = [];
  log_name = [];
  buf_size = 0;
  max_lines = 0;
  count = 0;
  today = 0;
  file = none;
  queue = none;
  written = [];
}

-- %d, and %0wd
abbrev pub decimal : ℕ → Bytes
decimal n = print_int (pos n)

abbrev pub padded : ℕ → ℕ → Bytes
padded w n = replicate (w - length (decimal n)) b'0' ++ decimal n

-- "%d_%02d_%02d_"
unfoldable pub date_text : Tm → Bytes
date_text t =
    decimal t.year
    ++ (codes "_" ++ (padded 2 t.mon ++ (codes "_" ++ (padded 2 t.mday ++ codes "_"))))

-- What `snprintf` leaves in an array, given its size less one.
abbrev pub cut : ℕ → Bytes → Bytes
cut n s = take n s

abbrev pub opened : (Bytes → Bool) → Bytes → Option Bytes
opened fopen name = if fopen name then some name else none

abbrev is_some : Option Bytes → Bool
is_some none = false
is_some (some name) = true

-- `m_fp = fopen(...)`, `m_today = ...`, and the result.
abbrev open_first : (Bytes → Bool) → ServerLog → Bytes → Tm → Bool × ServerLog
open_first fopen l name t =
    (is_some (opened fopen name), record l { file = opened fopen name; today = t.mday })

-- The names, and the first file; `strcpy` and `strncpy` go to arrays of 128 bytes.
unfoldable pub open_log : (Bytes → Bool) → ServerLog → Bytes → Tm → Run (Bool × ServerLog)
open_log fopen l file_name t = elim (behind_last b'/' file_name) [
  | none ↦ done (open_first fopen l (cut 254 (date_text t ++ file_name)) t)
  | some rest ↦
      let dir = take (length file_name - length rest) file_name in
      if ltb (length rest) 128 && ltb (length dir) 128
      then done (
          open_first fopen (record l { dir_name = dir; log_name = rest })
            (cut 254 (dir ++ (date_text t ++ rest))) t)
      else fault
]

-- `init`
unfoldable pub init : (Bytes → Bool) → ServerLog → Bytes → ℕ → ℕ → ℤ → Tm → Run (Bool × ServerLog)
unfolding open_log
init fopen l file_name log_buf_size split_lines max_queue_size t =
    let queue : Option (BlockQueue Bytes) = elim max_queue_size [
      | negsuc n ↦ l.queue
      | pos n ↦ if leb 1 n then block_queue [] (pos n) else l.queue
    ] in
    open_log fopen (record l { queue = queue; buf_size = log_buf_size; max_lines = split_lines })
      file_name t

unfoldable pub level_text : ℕ → Bytes
level_text level =
    if level == 0
    then codes "[debug]:"
    else if level == 1
    then codes "[info]:"
    else if level == 2
    then codes "[warn]:"
    else if level == 3
    then codes "[erro]:"
    else codes "[info]:"

-- `fclose`, and the next file; `fclose` of NULL is undefined.
unfoldable pub reopen : (Bytes → Bool) → ServerLog → Bytes → Run ServerLog
reopen fopen l name = elim l.file [
  | none ↦ fault
  | some old ↦ done (record l { file = opened fopen name })
]

-- `dir_name`, the date and `log_name`, with what stands behind them.
abbrev pub file_at : ServerLog → Bytes → Bytes → Bytes
file_at l date suffix = cut 254 (l.dir_name ++ (date ++ (l.log_name ++ suffix)))

-- The part of `write_log` that counts the line and opens another file; `%` by zero is undefined.
unfoldable pub rotate : (Bytes → Bool) → ServerLog → Tm → Run ServerLog
unfolding reopen
rotate fopen l t =
    let l1 = record l { count = l.count + 1 } in
    let tail = cut 15 (date_text t) in
    let new_day = reopen fopen (record l1 { today = t.mday; count = 0 }) (file_at l tail []) in
    let next_file = reopen fopen l1 (file_at l tail (b'.' ∷ decimal (l1.count / l1.max_lines))) in
    let same_day =
      if l1.max_lines == 0
      then fault
      else if l1.count % l1.max_lines == 0
      then next_file
      else done l1 in
    if l1.today == t.mday then same_day else new_day

-- "%d-%02d-%02d %02d:%02d:%02d.%06ld %s "
unfoldable pub stamp : Tm → ℕ → Bytes
stamp t level =
    decimal t.year
    ++ (codes "-"
        ++ (padded 2 t.mon
            ++ (codes "-"
                ++ (padded 2 t.mday
                    ++ (codes " "
                        ++ (padded 2 t.hour
                            ++ (codes ":"
                                ++ (padded 2 t.min
                                    ++ (codes ":"
                                        ++ (padded 2 t.sec
                                            ++ (codes "."
                                                ++ (padded 6 t.usec
                                                    ++ (codes " "
                                                        ++ (level_text level
                                                            ++ codes " "))))))))))))))

-- The line in `m_buf`, for the formatted message; the bytes behind it are written at `n + m` and
-- `n + m + 1`. A header of 48 bytes or more is cut, and then the string ends there.
unfoldable pub format_line : ServerLog → Bytes → Bytes → Run Bytes
format_line l header message =
    if ltb (length header + length message + 1) l.buf_size
    then done (if ltb 47 (length header) then cut 47 header else header ++ (message ++ b'\n' ∷ []))
    else fault

-- `fputs`; NULL is undefined.
unfoldable pub put_line : ServerLog → Bytes → Run ServerLog
put_line l line = elim l.file [
  | none ↦ fault
  | some name ↦ done (record l { written = l.written ++ (name, line) ∷ [] })
]

-- `push` where the log is asynchronous and the queue not full.
unfoldable pub emit : ServerLog → Bytes → Run ServerLog
unfolding put_line
emit l line =
    let queued =
      λ (q : BlockQueue Bytes). (do r ← push q line; done (record l { queue = some r.1 })) in
    elim l.queue [
      | none ↦ put_line l line
      | some q ↦ if is_full q then put_line l line else queued q
    ]

unfoldable pub write_log : (Bytes → Bool) → ServerLog → Tm → ℕ → Bytes → Run ServerLog
write_log fopen l t level message = do
  l1 ← rotate fopen l t
  line ← format_line l1 (stamp t level) message
  emit l1 line

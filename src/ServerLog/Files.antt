-- ===== src/ServerLog/Files.antt =====
-- Which file a line goes to.
use tiny_http.Prelude.{
  ℕ, zero, suc, ◌+◌, ◌-◌, ◌*◌, ◌/◌, ◌%◌, ◌<◌, ◌≡◌, ◌≢◌, refl, sym, ap, ◌∙◌, true, false, [], ◌∷◌,
  ◌++◌, Bytes, length, some, none, done, arith, Bool-cases, inl, inr, ltb, lt→ltb, ◌==◌,
  if◌then◌else◌,
}
use native.Mathlib.Nat.{div-add-mod, mod-lt, mul-add-div, div-eq_of_lt, zero-div}
use tiny_http.ServerLog.{
  Tm, ServerLog, decimal, date_text, cut, file_at, reopen, rotate, stamp, format_line, put_line,
  emit, write_log,
}

-- No suffix for the first file of a day, and then the number of full files.
abbrev pub suffix : ℕ → Bytes
suffix zero = []
suffix (suc k) = b'.' ∷ decimal (suc k)

-- The open file is that of the date, for the number of lines of that day.
pub record Names (date : Bytes) (l : ServerLog) : Type 0 where
  pub limit : 0 < l.max_lines
  pub file : l.file ≡ some (file_at l date (suffix (l.count / l.max_lines)))

suffix_pos : (k : ℕ) → 0 < k → suffix k ≡ b'.' ∷ decimal k
suffix_pos zero h = absurd (omega arith)
suffix_pos (suc k) h = refl

div_step : (n m : ℕ) → 0 < m → (n + 1) % m ≢ 0 → (n + 1) / m ≡ n / m
div_step n m h k =
    let q = (n + 1) / m in
    let r = (n + 1) % m in
    let whole : m * q + r ≡ n + 1 = div-add-mod (n + 1) m in
    let before : n ≡ m * q + (r - 1) = omega (arith, whole) in
    let small : r - 1 < m = omega (arith, mod-lt (n + 1) h) in
    let back : n / m ≡ q + (r - 1) / m = ap (λ z. z / m) before ∙ mul-add-div h q (r - 1) in
    omega (arith, back, div-eq_of_lt small)

div_pos : (n m : ℕ) → 0 < m → (n + 1) % m ≡ 0 → 0 < (n + 1) / m
div_pos n m h k = grind (arith, div-add-mod (n + 1) m)

-- The file that the line goes to: the same, or the next one of the day, or the first one of a new day.
abbrev pub next_name : ServerLog → Tm → Bytes
next_name l t =
    file_at l (cut 15 (date_text t))
      (suffix (if l.today == t.mday then (l.count + 1) / l.max_lines else 0))

rotate-Names :
    (l : ServerLog) (t : Tm) (date : Bytes)
    → Names date l
    → (l.today ≡ t.mday → date ≡ cut 15 (date_text t))
    → (l' : ServerLog) × (rotate (λ name. true) l t ≡ done l')
      × Names (cut 15 (date_text t)) l'
      × (l'.file ≡ some (next_name l t))
      × (l'.written ≡ l.written)
      × (l'.buf_size ≡ l.buf_size)
      × (l'.queue ≡ l.queue)
      × (l'.dir_name ≡ l.dir_name)
      × (l'.log_name ≡ l.log_name)
      × (l'.max_lines ≡ l.max_lines)
unfolding rotate reopen
rotate-Names l t date h d = elim (Bool-cases (l.today == t.mday)) [
  | inl same ↦
      let now : date ≡ cut 15 (date_text t) = d (ground arith) in
      let some_lines : (l.max_lines == 0) ≡ false = ground (arith, h.limit) in
      elim (Bool-cases ((l.count + 1) % l.max_lines == 0)) [
        | inl full ↦
            let more = div_pos l.count l.max_lines h.limit (ground arith) in
            let named = suffix_pos ((l.count + 1) / l.max_lines) more in
            let l' = record l {
              count = l.count + 1;
              file =
                  some (
                    file_at l (cut 15 (date_text t))
                      (b'.' ∷ decimal ((l.count + 1) / l.max_lines)));
            } in
            rw (same, some_lines, full, h.file)
              (
                l',
                refl,
                record {
                  limit = h.limit;
                  file = ap (λ (z : Bytes). some (file_at l (cut 15 (date_text t)) z)) (sym named);
                },
                ap (λ (z : Bytes). some (file_at l (cut 15 (date_text t)) z)) (sym named),
                refl,
                refl,
                refl,
                refl,
                refl,
                refl,
              )
        | inr more_room ↦
            let kept = div_step l.count l.max_lines h.limit (ground arith) in
            let stays : l.file
                ≡ some (file_at l (cut 15 (date_text t)) (suffix ((l.count + 1) / l.max_lines))) =
              h.file
              ∙ ap (λ (z : Bytes). some (file_at l z (suffix (l.count / l.max_lines)))) now
              ∙ ap (λ (k : ℕ). some (file_at l (cut 15 (date_text t)) (suffix k))) (sym kept) in
            rw (same, some_lines, more_room)
              (
                record l { count = l.count + 1 },
                refl,
                record { limit = h.limit; file = stays },
                stays,
                refl,
                refl,
                refl,
                refl,
                refl,
                refl,
              )
      ]
  | inr other ↦
      rw (other, h.file)
        (
          record l { count = 0; today = t.mday; file = some (file_at l (cut 15 (date_text t)) []) },
          refl,
          record {
            limit = h.limit;
            file =
                ap (λ (k : ℕ). some (file_at l (cut 15 (date_text t)) (suffix k)))
                  (sym (zero-div l.max_lines));
          },
          refl,
          refl,
          refl,
          refl,
          refl,
          refl,
          refl,
        )
]

emit_sync :
    (l : ServerLog) (name line : Bytes)
    → l.queue ≡ none
    → l.file ≡ some name
    → emit l line ≡ done (record l { written = l.written ++ (name, line) ∷ [] })
unfolding emit put_line
emit_sync l name line q f = ground arith

-- For a synchronous log whose open file is that of its date and count, where fopen succeeds and a
-- day of the month that is as before stands for the same date: a message that fits the buffer is
-- written, with its stamp in front and a newline behind it, as one line to the file that the new
-- count and date call for, and that file is open; nothing else is written.
pub write_log-Names :
    (l : ServerLog) (t : Tm) (date : Bytes) (level : ℕ) (message : Bytes)
    → Names date l
    → (l.today ≡ t.mday → date ≡ cut 15 (date_text t))
    → l.queue ≡ none
    → length (stamp t level) < 48
    → length (stamp t level) + length message + 1 < l.buf_size
    → (l' : ServerLog) × (write_log (λ name. true) l t level message ≡ done l')
      × Names (cut 15 (date_text t)) l'
      × (l'.written ≡ l.written ++ (next_name l t, stamp t level ++ (message ++ b'\n' ∷ [])) ∷ [])
      × (l'.queue ≡ none)
unfolding write_log format_line
write_log-Names l t date level message h d sync short fits =
    let (l1, e, names, file, written, size, queue, dir, log, max) = rotate-Names l t date h d in
    let room : ltb (length (stamp t level) + length message + 1) l1.buf_size ≡ true =
      lt→ltb (length (stamp t level) + length message + 1) l1.buf_size (omega (arith, size)) in
    let whole : ltb 47 (length (stamp t level)) ≡ false = ground arith in
    let line = stamp t level ++ (message ++ b'\n' ∷ []) in
    let no_queue : l1.queue ≡ none = queue ∙ sync in
    (
      record l1 { written = l1.written ++ (next_name l t, line) ∷ [] },
      rw (e, room, whole) (emit_sync l1 (next_name l t) line no_queue file),
      record { limit = names.limit; file = names.file },
      ap (λ w. w ++ (next_name l t, line) ∷ []) written,
      no_queue,
    )

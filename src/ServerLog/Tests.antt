-- ===== src/ServerLog/Tests.antt =====
-- Runs of the log, and the theorem there.
use tiny_http.Prelude.{
  ◌≡◌, refl, sym, true, [], ◌∷◌, ◌++◌, length, take, some, none, done, fault, arith, codes,
}
use tiny_http.Prelude.Int.{pos}
use tiny_http.Libc.{print_int, behind_last}
use tiny_http.ServerLog.{
  Tm, ServerLog, new_log, date_text, cut, init, open_log, level_text, stamp, format_line, write_log,
}
use tiny_http.ServerLog.Files.{Names, next_name, write_log-Names}

abbrev noon : Tm
noon = record { year = 2020; mon = 2; mday = 3; hour = 12; min = 0; sec = 5; usec = 42 }

abbrev log : ServerLog
log = record {
  dir_name = codes "log/";
  log_name = codes "web";
  buf_size = 200;
  max_lines = 2;
  count = 0;
  today = 3;
  file = some (codes "log/2020_02_03_web");
  queue = none;
  written = [];
}

opens_log : init (λ name. true) new_log (codes "log/web") 200 2 (pos 0) noon ≡ done (true, log)
unfolding init open_log behind_last date_text print_int
opens_log = refl

log-Names : Names (codes "2020_02_03_") log
unfolding date_text
log-Names = record { limit = omega arith; file = refl }

noon_date : take 15 (date_text noon) ≡ codes "2020_02_03_"
unfolding date_text print_int
noon_date = refl

short : length (stamp noon 1) ≡ 35
unfolding stamp level_text print_int
short = refl

-- The second line of the day goes to the next file.
abbrev one_line : ServerLog
one_line = record log { count = 1 }

one_line-Names : Names (codes "2020_02_03_") one_line
one_line-Names = record { limit = omega arith; file = refl }

write_log-Names_example :
    (l' : ServerLog) × (write_log (λ name. true) one_line noon 1 (codes "hi") ≡ done l')
    × Names (cut 15 (date_text noon)) l'
    × (l'.written ≡ (next_name one_line noon, stamp noon 1 ++ (codes "hi" ++ b'\n' ∷ [])) ∷ [])
    × (l'.queue ≡ none)
write_log-Names_example =
    write_log-Names one_line noon (codes "2020_02_03_") 1 (codes "hi") one_line-Names
      (λ e. noon_date_back) refl (omega (arith, short)) (omega (arith, short))
  where
    noon_date_back : codes "2020_02_03_" ≡ cut 15 (date_text noon)
    noon_date_back = sym noon_date

next_file : next_name one_line noon ≡ codes "log/2020_02_03_web.1"
unfolding date_text print_int
next_file = refl

-- Without a '/' in its name, the file of the next day has only the date for its name.
nameless :
    init (λ name. true) new_log (codes "ServerLog") 200 2 (pos 0) noon
    ≡ done (
      true,
      record new_log {
        buf_size = 200;
        max_lines = 2;
        today = 3;
        file = some (codes "2020_02_03_ServerLog");
      },
    )
unfolding init open_log behind_last date_text print_int
nameless = refl

next_day : next_name (record new_log { max_lines = 2; today = 2 }) noon ≡ codes "2020_02_03_"
unfolding date_text print_int
next_day = refl

-- A message that is longer than the buffer.
overflow : format_line (record log { buf_size = 8 }) (codes "head ") (codes "body") ≡ fault
unfolding format_line
overflow = refl

-- ===== src/Config.antt =====
-- version_02/bin/config.c: the configuration file. `sscanf` with "%s %s" reads the two first words of
-- a line; a word that is not there leaves its array as it was.
pub mod Lines
mod Tests
use tiny_http.Prelude.{
  ℕ, zero, suc, ◌+◌, ◌-◌, ◌*◌, ◌/◌, ◌%◌, ◌^◌, ◌<◌, ◌≤◌, ◌≡◌, ◌≢◌, ◌↔◌, ◌⊎◌, inl, inr, refl, sym, ap,
  ◌∙◌, subst, Bool, true, false, List, [], ◌∷◌, ◌++◌, append_assoc, append-nil, Bytes, length,
  length-append, take, drop, length-drop, Run, Option, some, none, replicate, done, fault, timeout,
  ◌>>=◌, >>=-eq-done, >>=-ne-timeout, arith, Bool-cases, leb, ltb, lt→ltb, not, ◌&&◌, ◌||◌, ◌==◌,
  if◌then◌else◌, codes, String,
}
use tiny_http.Prelude.Int.{ℤ, pos, negsuc}
use tiny_http.Libc.{Buf, c_string, is_space, same_string, atoi}
use tiny_http.Httpd.File.{Chunk, fgets}

-- `struct conf_http_t`
pub record Conf : Type 0 where
  pub port : ℤ
  pub listen_num : ℤ
  pub thread_num : ℤ
  pub doc : Bytes
  pub event_num : ℤ

unfoldable pub init_default_conf : Conf
init_default_conf = record {
  port = pos 9190;
  listen_num = pos 20;
  thread_num = pos 4;
  doc = codes "../doc";
  event_num = pos 2021;
}

-- what is behind the blanks at the front
unfoldable pub skip_space : Bytes → Bytes
skip_space [] = []
skip_space (c ∷ cs) = let rest = skip_space cs in if is_space c then rest else c ∷ cs

-- the bytes before the first blank, and those from it on
unfoldable pub split_word : Bytes → Bytes × Bytes
split_word [] = ([], [])
split_word (c ∷ cs) = let r = split_word cs in if is_space c then ([], c ∷ cs) else (c ∷ r.0, r.1)

-- The arrays `key` and `value` of `init_conf`, as strings.
pub record Setting : Type 0 where
  pub key : Bytes
  pub value : Bytes

second_word : Setting → Bytes → Bytes → Setting
second_word old key [] = record old { key = key }
second_word old key (c ∷ cs) = record { key = key; value = c ∷ cs }

first_word : Setting → Bytes × Bytes → Setting
unfolding second_word
first_word old ([], rest) = old
first_word old (c ∷ cs, rest) = second_word old (c ∷ cs) (split_word (skip_space rest)).0

-- sscanf(buf, "%s %s", key, value)
unfoldable pub scan : Setting → Bytes → Setting
unfolding first_word
scan old line = first_word old (split_word (skip_space line))

-- `strcpy(conf->doc, value)`; `doc` has 50 bytes.
set_doc : Conf → Bytes → Run Conf
set_doc conf value = if ltb (length value) 50 then done (record conf { doc = value }) else fault

-- The tests for the key, which can hold for one of them only.
unfoldable pub set : Conf → Setting → Run Conf
unfolding set_doc
set conf s =
    let number = atoi (s.value ++ 0 ∷ []) in
    if same_string s.key (codes "PORT")
    then (do n ← number; done (record conf { port = n }))
    else if same_string s.key (codes "THREAD_NUM")
    then (do n ← number; done (record conf { thread_num = n }))
    else if same_string s.key (codes "LISTEN_NUM")
    then (do n ← number; done (record conf { listen_num = n }))
    else if same_string s.key (codes "FILE_DIR")
    then set_doc conf s.value
    else if same_string s.key (codes "EVENT_LIST")
    then (do n ← number; done (record conf { event_num = n }))
    else done conf

-- The loop, from a call of `fgets` on, which gives NULL where nothing is left.
unfoldable pub read_conf : ℕ → Conf → Setting → Bytes → Run Conf
read_conf zero conf old file = timeout
read_conf (suc fuel) conf old file =
    let chunk = fgets 127 file in
    let s = scan old (c_string chunk.text) in
    let more = (do conf' ← set conf s; read_conf fuel conf' s chunk.rest) in
    if length chunk.text == 0 then done conf else more

-- `fopen` gives a null pointer for a missing file, and no pointer is below zero, so that the default
-- is not taken and `fgets` reads from it.
unfoldable pub init_conf : Option Bytes → Conf → Run Conf
init_conf none conf = fault
init_conf (some file) conf = read_conf (length file + 1) conf (record { key = []; value = [] }) file

-- ===== src/Config/Tests.antt =====
-- Runs of version_02's configuration, and the theorem at a concrete input.
use tiny_http.Prelude.{◌≡◌, refl, [], ◌∷◌, some, done, arith, codes}
use tiny_http.Prelude.Int.{pos}
use tiny_http.Libc.{is_space, same_string, atoi, c_string}
use tiny_http.Httpd.File.{fgets}
use tiny_http.Config.{
  Setting, init_default_conf, skip_space, split_word, scan, set, read_conf, init_conf,
}
use tiny_http.Config.Lines.{IsPlain, IsSetting, file_of, set_all, init_conf_settings}

abbrev port : Setting
port = record { key = codes "PORT"; value = codes "80" }

port-IsSetting : IsSetting port
unfolding is_space
port-IsSetting =
    let key : IsPlain (codes "PORT") =
      (refl, omega arith, (refl, omega arith, (refl, omega arith, (refl, omega arith, tt)))) in
    let value : IsPlain (codes "80") = (refl, omega arith, (refl, omega arith, tt)) in
    (omega arith, omega arith, key, value, omega arith)

init_conf_settings_example :
    init_conf (some (file_of (port ∷ []))) init_default_conf ≡ set_all (port ∷ []) init_default_conf
init_conf_settings_example = init_conf_settings (port ∷ []) init_default_conf (port-IsSetting, tt)

-- A blank line repeats the setting before it.
run :
    init_conf (some (codes "PORT 80\nFILE_DIR ../www\n\n")) init_default_conf
    ≡ done (record init_default_conf { port = pos 80; doc = codes "../www" })
unfolding init_conf read_conf fgets scan skip_space split_word set is_space same_string atoi
    c_string
run = refl

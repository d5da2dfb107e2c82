-- ===== src/Options/Runs.antt =====
-- Runs of the reading of options.
use dnss_cpp.Common.{ℕ, ◌≡◌, refl, true, false, none, some, List, [], ◌∷◌, ◌++◌, ok}
use dnss_cpp.Common.Text.{text_eq, split_at}
use dnss_cpp.Cache.Policy.{is_empty}
use dnss_cpp.Options.{
  default, configured, refused, set_json, set_option, load_args, value_of, find_config, parse_args,
  load_file,
}
use dnss_cpp.Options.Keys
use dnss_cpp.Options.Json.{parse_json}
use dnss_cpp.Options.Json.RoundTrip.{json_text, insert_all, parse_json-json_text}
use dnss_cpp.Options.Agree.{set_option-set_json}

abbrev warn : List ℕ
warn = b'w' ∷ b'a' ∷ b'r' ∷ b'n' ∷ []

-- Of two values of a key the last one stays.
parse_json-json_text_example :
    parse_json (json_text ((b'a' ∷ [], warn) ∷ (b'a' ∷ [], []) ∷ []))
    ≡ ok (insert_all ((b'a' ∷ [], warn) ∷ (b'a' ∷ [], []) ∷ []) [])
parse_json-json_text_example =
    parse_json-json_text ((b'a' ∷ [], warn) ∷ (b'a' ∷ [], []) ∷ [])
      (((refl, tt), (refl, (refl, (refl, (refl, tt))))), (((refl, tt), tt), tt))

level_known :
    set_option (Keys.dashed Keys.log_level) warn default
    ≡ some (record default { log_level = warn })
unfolding set_option text_eq
level_known = refl

not_config : text_eq Keys.log_level Keys.config ≡ false
unfolding text_eq
not_config = refl

not_cache_file : text_eq Keys.log_level Keys.cache_file ≡ false
unfolding text_eq
not_cache_file = refl

set_option-set_json_example :
    record default { log_level = warn } ≡ set_json Keys.log_level warn default
unfolding text_eq
set_option-set_json_example =
    set_option-set_json Keys.log_level warn default (record default { log_level = warn })
      level_known not_config not_cache_file (λ e. cc)

-- A value behind the `=`.
parse_args-flag :
    parse_args
      (λ path. none)
      ((b'-' ∷ b'-' ∷ b'p' ∷ b'r' ∷ b'o' ∷ b'x' ∷ b'y' ∷ b'=' ∷ b'a' ∷ []) ∷ [])
    ≡ ok (configured (record default { proxy = b'a' ∷ [] }))
unfolding parse_args find_config load_file load_args set_option value_of split_at text_eq is_empty
parse_args-flag = refl

-- A flag is set whatever its value is, and the file says otherwise.
load_args_flag :
    (load_args (Keys.dashed (Keys.insecure_http_server ++ (b'=' ∷ b'n' ∷ b'o' ∷ [])) ∷ []) default
      ≡ configured (record default { insecure_http_server = true }))
    × (set_json Keys.insecure_http_server (b'n' ∷ b'o' ∷ []) default ≡ default)
unfolding load_args set_option split_at text_eq value_of set_json
load_args_flag = (refl, refl)

-- An option that is not known ends the program.
load_args-refused : load_args ((b'-' ∷ b'x' ∷ []) ∷ []) default ≡ refused (b'-' ∷ b'x' ∷ [])
unfolding load_args set_option split_at text_eq value_of
load_args-refused = refl

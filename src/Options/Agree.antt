-- ===== src/Options/Agree.antt =====
-- The command line of main.cpp and its file say the same.
use dnss_cpp.Common.{
  ℕ, ◌≡◌, refl, sym, ap, ◌∙◌, Bool, true, false, ◌||◌, Option, none, some, List, [], ◌∷◌,
  if◌then◌else◌, arith, All,
}
use dnss_cpp.Common.Text.{text_eq}
use dnss_cpp.Cache.Policy.{is_empty}
use dnss_cpp.Options.{Config, is_true, set_json, set_option}
use dnss_cpp.Options.Keys

-- The options that the command line switches on whatever their value is.
abbrev pub is_flag : List ℕ → Bool
is_flag k =
    text_eq k Keys.enable_dns_to_https
    || text_eq k Keys.enable_https_to_dns
    || text_eq k Keys.insecure_http_server

-- A test on the key, and what the command line and the file make of the option.
abbrev Row : Type 0
Row = Bool × Config × Config

abbrev same_row : Bool → Config → Row
same_row b c = (b, c, c)

abbrev of_args : List Row → Option Config → Option Config
of_args [] d = d
of_args ((b, x, y) ∷ rows) d = if b then some x else of_args rows d

abbrev of_file : List Row → Config → Config
of_file [] d = d
of_file ((b, x, y) ∷ rows) d = if b then y else of_file rows d

abbrev Agrees : Row → Type 0
Agrees (b, x, y) = b ≡ true → x ≡ y

rows_agree :
    (rows : List Row) (o : Option Config) (d after : Config)
    → All Agrees rows
    → (o ≡ some after → after ≡ d)
    → of_args rows o ≡ some after
    → after ≡ of_file rows d
rows_agree [] o d after h k e = k e
rows_agree ((true, x, y) ∷ rows) o d after (h, hs) k e =
    let same : x ≡ after = cc in sym same ∙ h refl
rows_agree ((false, x, y) ∷ rows) o d after (h, hs) k e = rows_agree rows o d after hs k e

flag_first : (a b c : Bool) → a ≡ true → (a || b || c) ≡ true
flag_first a b c e = ground (arith, e)

flag_second : (a b c : Bool) → b ≡ true → (a || b || c) ≡ true
flag_second a b c e = ground (arith, e)

flag_third : (a b c : Bool) → c ≡ true → (a || b || c) ≡ true
flag_third a b c e = ground (arith, e)

or_swap : (a b : Bool) → (a || b) ≡ (b || a)
or_swap a b = ground arith

abbrev first_rows : List ℕ → List ℕ → Config → List Row
first_rows k v c =
    same_row (text_eq k Keys.dns_listen_addr) (record c { dns_listen_addr = v })
    ∷ same_row (text_eq k Keys.dns_unqualified_upstream) (record c { dns_unqualified_upstream = v })
    ∷ same_row (text_eq k Keys.dns_server_for_domain) (record c { dns_server_for_domain = v })
    ∷ same_row (text_eq k Keys.fallback_upstream) (record c { fallback_upstream = v })
    ∷ (
      text_eq k Keys.enable_dns_to_https,
      record c { enable_dns_to_https = true },
      record c { enable_dns_to_https = is_true v },
    )
    ∷ same_row (text_eq k Keys.https_upstream) (record c { https_upstream = v })
    ∷ same_row (text_eq k Keys.https_upstream2) (record c { https_upstream2 = v })
    ∷ same_row (text_eq k Keys.https_client_cafile) (record c { https_client_ca_file = v })
    ∷ []

abbrev last_rows : List ℕ → List ℕ → Config → List Row
last_rows k v c =
    (
      text_eq k Keys.enable_cache,
      record c { enable_cache = is_empty v || is_true v },
      record c { enable_cache = is_true v || is_empty v },
    )
    ∷ (
      text_eq k Keys.enable_https_to_dns,
      record c { enable_https_to_dns = true },
      record c { enable_https_to_dns = is_true v },
    )
    ∷ same_row (text_eq k Keys.dns_upstream) (record c { dns_upstream = v })
    ∷ same_row (text_eq k Keys.https_cert) (record c { https_cert_file = v })
    ∷ same_row (text_eq k Keys.https_key) (record c { https_key_file = v })
    ∷ same_row (text_eq k Keys.https_server_addr) (record c { https_addr = v })
    ∷ (
      text_eq k Keys.insecure_http_server,
      record c { insecure_http_server = true },
      record c { insecure_http_server = is_true v },
    )
    ∷ same_row (text_eq k Keys.monitoring_listen_addr) (record c { monitoring_listen_addr = v })
    ∷ same_row (text_eq k Keys.log_level) (record c { log_level = v })
    ∷ same_row (text_eq k Keys.log_format) (record c { log_format = v })
    ∷ same_row (text_eq k Keys.proxy) (record c { proxy = v })
    ∷ same_row (text_eq k Keys.no_proxy) (record c { no_proxy = v })
    ∷ []

module _ (k v : List ℕ) (c : Config) (flags : is_flag k ≡ true → is_true v ≡ true) where
  first_rows-Agrees : All Agrees (first_rows k v c)
  first_rows-Agrees = (
    (λ e. refl),
    (
      (λ e. refl),
      (
        (λ e. refl),
        (
          (λ e. refl),
          (
            (λ e.
                ap (λ b. record c { enable_dns_to_https = b })
                  (sym (
                    flags (
                      flag_first (text_eq k Keys.enable_dns_to_https)
                        (text_eq k Keys.enable_https_to_dns) (text_eq k Keys.insecure_http_server)
                        e)))),
            ((λ e. refl), ((λ e. refl), ((λ e. refl), tt))),
          ),
        ),
      ),
    ),
  )

  last_rows-Agrees : All Agrees (last_rows k v c)
  last_rows-Agrees = (
    (λ e. ap (λ b. record c { enable_cache = b }) (or_swap (is_empty v) (is_true v))),
    (
      (λ e.
          ap (λ b. record c { enable_https_to_dns = b })
            (sym (
              flags (
                flag_second (text_eq k Keys.enable_dns_to_https)
                  (text_eq k Keys.enable_https_to_dns) (text_eq k Keys.insecure_http_server) e)))),
      (
        (λ e. refl),
        (
          (λ e. refl),
          (
            (λ e. refl),
            (
              (λ e. refl),
              (
                (λ e.
                    ap (λ b. record c { insecure_http_server = b })
                      (sym (
                        flags (
                          flag_third (text_eq k Keys.enable_dns_to_https)
                            (text_eq k Keys.enable_https_to_dns)
                            (text_eq k Keys.insecure_http_server) e)))),
                ((λ e. refl), ((λ e. refl), ((λ e. refl), ((λ e. refl), ((λ e. refl), tt))))),
              ),
            ),
          ),
        ),
      ),
    ),
  )

-- An option that the command line knows, other than `--config`, does there what it does in the file, where
-- `cache_file` is no option of the command line, and a flag has a value in the file that says true.
pub set_option-set_json :
    (k v : List ℕ) (c after : Config)
    → set_option (Keys.dashed k) v c ≡ some after
    → text_eq k Keys.config ≡ false
    → text_eq k Keys.cache_file ≡ false
    → (is_flag k ≡ true → is_true v ≡ true)
    → after ≡ set_json k v c
unfolding set_option set_json text_eq
set_option-set_json k v c after known h1 h2 flags =
    let rest = of_args (first_rows k v c) (of_args (last_rows k v c) none) in
    let file = of_file (last_rows k v c) c in
    let start : rest ≡ some after = ap (λ b. if b then some c else rest) (sym h1) ∙ known in
    rows_agree (first_rows k v c) (of_args (last_rows k v c) none) _ after
      (first_rows-Agrees k v c flags)
      (λ e.
        rows_agree (last_rows k v c) none c after (last_rows-Agrees k v c flags) (λ f. cc) e
        ∙ ap (λ b. if b then record c { cache_file = v } else file) (sym h2))
      start

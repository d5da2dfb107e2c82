-- ===== src/Options.antt =====
-- The options of main.cpp: the file, the command line, and what the program makes of them. A file that
-- does not open has no entries.
pub mod Keys
pub mod Json
pub mod Agree
pub mod Runs
use dnss_cpp.Common.{
  ℕ, Bool, true, false, ◌||◌, Option, none, some, List, [], ◌∷◌, if◌then◌else◌, Result, ok, ◌>>=◌,
}
use dnss_cpp.Common.Text.{text_eq, split_at}
use dnss_cpp.Cache.Policy.{is_empty}
use dnss_cpp.DomainMap.{DomainMap}
use dnss_cpp.Options.Keys
use dnss_cpp.Options.Json.{parse_json}

pub record Config : Type 0 where
  pub dns_listen_addr : List ℕ
  pub dns_unqualified_upstream : List ℕ
  pub dns_server_for_domain : List ℕ
  pub fallback_upstream : List ℕ
  pub enable_dns_to_https : Bool
  pub https_upstream : List ℕ
  pub https_upstream2 : List ℕ
  pub https_client_ca_file : List ℕ
  pub cache_file : List ℕ
  pub enable_cache : Bool
  pub enable_https_to_dns : Bool
  pub dns_upstream : List ℕ
  pub https_cert_file : List ℕ
  pub https_key_file : List ℕ
  pub https_addr : List ℕ
  pub insecure_http_server : Bool
  pub monitoring_listen_addr : List ℕ
  pub log_level : List ℕ
  pub log_format : List ℕ
  pub proxy : List ℕ
  pub no_proxy : List ℕ
  pub config_file : List ℕ

abbrev pub default : Config
default = record {
  dns_listen_addr = b':' ∷ b'5' ∷ b'3' ∷ [];
  dns_unqualified_upstream = [];
  dns_server_for_domain = [];
  fallback_upstream = b'8' ∷ b'.' ∷ b'8' ∷ b'.' ∷ b'8' ∷ b'.' ∷ b'8' ∷ b':' ∷ b'5' ∷ b'3' ∷ [];
  enable_dns_to_https = false;
  https_upstream =
      b'h' ∷ b't' ∷ b't' ∷ b'p' ∷ b's' ∷ b':' ∷ b'/' ∷ b'/' ∷ b'd' ∷ b'n' ∷ b's' ∷ b'.' ∷ b'g'
      ∷ b'o' ∷ b'o' ∷ b'g' ∷ b'l' ∷ b'e' ∷ b'/' ∷ b'd' ∷ b'n' ∷ b's' ∷ b'-' ∷ b'q' ∷ b'u' ∷ b'e'
      ∷ b'r' ∷ b'y' ∷ [];
  https_upstream2 = [];
  https_client_ca_file = [];
  cache_file = [];
  enable_cache = true;
  enable_https_to_dns = false;
  dns_upstream = b'8' ∷ b'.' ∷ b'8' ∷ b'.' ∷ b'8' ∷ b'.' ∷ b'8' ∷ b':' ∷ b'5' ∷ b'3' ∷ [];
  https_cert_file = [];
  https_key_file = [];
  https_addr = b':' ∷ b'4' ∷ b'4' ∷ b'3' ∷ [];
  insecure_http_server = false;
  monitoring_listen_addr = [];
  log_level = b'i' ∷ b'n' ∷ b'f' ∷ b'o' ∷ [];
  log_format = b't' ∷ b'e' ∷ b'x' ∷ b't' ∷ [];
  proxy = [];
  no_proxy = [];
  config_file = [];
}

abbrev pub is_true : List ℕ → Bool
is_true v = text_eq v Keys.true_text || text_eq v Keys.one

-- An option of the file; a key that is not known is passed over.
unfoldable pub set_json : List ℕ → List ℕ → Config → Config
set_json k v c =
    if text_eq k Keys.dns_listen_addr
    then record c { dns_listen_addr = v }
    else if text_eq k Keys.dns_unqualified_upstream
    then record c { dns_unqualified_upstream = v }
    else if text_eq k Keys.dns_server_for_domain
    then record c { dns_server_for_domain = v }
    else if text_eq k Keys.fallback_upstream
    then record c { fallback_upstream = v }
    else if text_eq k Keys.enable_dns_to_https
    then record c { enable_dns_to_https = is_true v }
    else if text_eq k Keys.https_upstream
    then record c { https_upstream = v }
    else if text_eq k Keys.https_upstream2
    then record c { https_upstream2 = v }
    else if text_eq k Keys.https_client_cafile
    then record c { https_client_ca_file = v }
    else if text_eq k Keys.cache_file
    then record c { cache_file = v }
    else if text_eq k Keys.enable_cache
    then record c { enable_cache = is_true v || is_empty v }
    else if text_eq k Keys.enable_https_to_dns
    then record c { enable_https_to_dns = is_true v }
    else if text_eq k Keys.dns_upstream
    then record c { dns_upstream = v }
    else if text_eq k Keys.https_cert
    then record c { https_cert_file = v }
    else if text_eq k Keys.https_key
    then record c { https_key_file = v }
    else if text_eq k Keys.https_server_addr
    then record c { https_addr = v }
    else if text_eq k Keys.insecure_http_server
    then record c { insecure_http_server = is_true v }
    else if text_eq k Keys.monitoring_listen_addr
    then record c { monitoring_listen_addr = v }
    else if text_eq k Keys.log_level
    then record c { log_level = v }
    else if text_eq k Keys.log_format
    then record c { log_format = v }
    else if text_eq k Keys.proxy
    then record c { proxy = v }
    else if text_eq k Keys.no_proxy
    then record c { no_proxy = v }
    else c

-- An option of the command line; one that is not known ends the program.
unfoldable pub set_option : List ℕ → List ℕ → Config → Option Config
set_option k v c =
    if text_eq k (Keys.dashed Keys.config)
    then some c
    else if text_eq k (Keys.dashed Keys.dns_listen_addr)
    then some (record c { dns_listen_addr = v })
    else if text_eq k (Keys.dashed Keys.dns_unqualified_upstream)
    then some (record c { dns_unqualified_upstream = v })
    else if text_eq k (Keys.dashed Keys.dns_server_for_domain)
    then some (record c { dns_server_for_domain = v })
    else if text_eq k (Keys.dashed Keys.fallback_upstream)
    then some (record c { fallback_upstream = v })
    else if text_eq k (Keys.dashed Keys.enable_dns_to_https)
    then some (record c { enable_dns_to_https = true })
    else if text_eq k (Keys.dashed Keys.https_upstream)
    then some (record c { https_upstream = v })
    else if text_eq k (Keys.dashed Keys.https_upstream2)
    then some (record c { https_upstream2 = v })
    else if text_eq k (Keys.dashed Keys.https_client_cafile)
    then some (record c { https_client_ca_file = v })
    else if text_eq k (Keys.dashed Keys.enable_cache)
    then some (record c { enable_cache = is_empty v || is_true v })
    else if text_eq k (Keys.dashed Keys.enable_https_to_dns)
    then some (record c { enable_https_to_dns = true })
    else if text_eq k (Keys.dashed Keys.dns_upstream)
    then some (record c { dns_upstream = v })
    else if text_eq k (Keys.dashed Keys.https_cert)
    then some (record c { https_cert_file = v })
    else if text_eq k (Keys.dashed Keys.https_key)
    then some (record c { https_key_file = v })
    else if text_eq k (Keys.dashed Keys.https_server_addr)
    then some (record c { https_addr = v })
    else if text_eq k (Keys.dashed Keys.insecure_http_server)
    then some (record c { insecure_http_server = true })
    else if text_eq k (Keys.dashed Keys.monitoring_listen_addr)
    then some (record c { monitoring_listen_addr = v })
    else if text_eq k (Keys.dashed Keys.log_level)
    then some (record c { log_level = v })
    else if text_eq k (Keys.dashed Keys.log_format)
    then some (record c { log_format = v })
    else if text_eq k (Keys.dashed Keys.proxy)
    then some (record c { proxy = v })
    else if text_eq k (Keys.dashed Keys.no_proxy)
    then some (record c { no_proxy = v })
    else none

unfoldable pub load_json : DomainMap → Config → Config
load_json [] c = c
load_json ((k, v) ∷ kv) c = load_json kv (set_json k v c)

-- What follows the `=`; an argument without one has no value.
unfoldable pub value_of : Option (List ℕ) → List ℕ
value_of none = []
value_of (some v) = v

-- The first pass: the file that the first `--config` names.
unfoldable pub find_config : List (List ℕ) → List ℕ
find_config [] = []
find_config (arg ∷ args) =
    let (key, val) = split_at b'=' arg in
    let later = find_config args in
    if text_eq key (Keys.dashed Keys.config) then value_of val else later

-- A configuration, or what ends the program: the help, or an option that is not known.
pub data Parsed : Type 0 where
  configured : Config → Parsed
  helped : Parsed
  refused : List ℕ → Parsed

-- The second pass.
unfoldable pub load_args : List (List ℕ) → Config → Parsed
load_args [] c = configured c
load_args (arg ∷ args) c =
    let (key, val) = split_at b'=' arg in
    if text_eq arg (Keys.dashed Keys.help) || text_eq arg Keys.short_help
    then helped
    else elim (set_option key (value_of val) c) [
      | none ↦ refused key
      | some after ↦ load_args args after
    ]

-- `read` gives the content of a file that opens.
unfoldable pub load_file : (List ℕ → Option (List ℕ)) → List ℕ → Config → Result Config
load_file read path c = if is_empty path then ok c else elim (read path) [
  | none ↦ ok c
  | some content ↦ (do kv ← parse_json content; ok (load_json kv c))
]

unfoldable pub parse_args : (List ℕ → Option (List ℕ)) → List (List ℕ) → Result Parsed
parse_args read args =
    let path = find_config args in
    (do c ← load_file read path (record default { config_file = path }); ok (load_args args c))

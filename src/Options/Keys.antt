-- ===== src/Options/Keys.antt =====
-- The names of the options of main.cpp.
use dnss_cpp.Common.{ℕ, List, [], ◌∷◌}

-- `--` and the name
abbrev pub dashed : List ℕ → List ℕ
dashed name = b'-' ∷ b'-' ∷ name

abbrev pub true_text : List ℕ
true_text = b't' ∷ b'r' ∷ b'u' ∷ b'e' ∷ []

abbrev pub one : List ℕ
one = b'1' ∷ []

abbrev pub config : List ℕ
config = b'c' ∷ b'o' ∷ b'n' ∷ b'f' ∷ b'i' ∷ b'g' ∷ []

abbrev pub help : List ℕ
help = b'h' ∷ b'e' ∷ b'l' ∷ b'p' ∷ []

abbrev pub short_help : List ℕ
short_help = b'-' ∷ b'h' ∷ []

abbrev pub dns_listen_addr : List ℕ
dns_listen_addr =
    b'd' ∷ b'n' ∷ b's' ∷ b'_' ∷ b'l' ∷ b'i' ∷ b's' ∷ b't' ∷ b'e' ∷ b'n' ∷ b'_' ∷ b'a' ∷ b'd' ∷ b'd'
    ∷ b'r' ∷ []

abbrev pub dns_unqualified_upstream : List ℕ
dns_unqualified_upstream =
    b'd' ∷ b'n' ∷ b's' ∷ b'_' ∷ b'u' ∷ b'n' ∷ b'q' ∷ b'u' ∷ b'a' ∷ b'l' ∷ b'i' ∷ b'f' ∷ b'i' ∷ b'e'
    ∷ b'd' ∷ b'_' ∷ b'u' ∷ b'p' ∷ b's' ∷ b't' ∷ b'r' ∷ b'e' ∷ b'a' ∷ b'm' ∷ []

abbrev pub dns_server_for_domain : List ℕ
dns_server_for_domain =
    b'd' ∷ b'n' ∷ b's' ∷ b'_' ∷ b's' ∷ b'e' ∷ b'r' ∷ b'v' ∷ b'e' ∷ b'r' ∷ b'_' ∷ b'f' ∷ b'o' ∷ b'r'
    ∷ b'_' ∷ b'd' ∷ b'o' ∷ b'm' ∷ b'a' ∷ b'i' ∷ b'n' ∷ []

abbrev pub fallback_upstream : List ℕ
fallback_upstream =
    b'f' ∷ b'a' ∷ b'l' ∷ b'l' ∷ b'b' ∷ b'a' ∷ b'c' ∷ b'k' ∷ b'_' ∷ b'u' ∷ b'p' ∷ b's' ∷ b't' ∷ b'r'
    ∷ b'e' ∷ b'a' ∷ b'm' ∷ []

abbrev pub enable_dns_to_https : List ℕ
enable_dns_to_https =
    b'e' ∷ b'n' ∷ b'a' ∷ b'b' ∷ b'l' ∷ b'e' ∷ b'_' ∷ b'd' ∷ b'n' ∷ b's' ∷ b'_' ∷ b't' ∷ b'o' ∷ b'_'
    ∷ b'h' ∷ b't' ∷ b't' ∷ b'p' ∷ b's' ∷ []

abbrev pub https_upstream : List ℕ
https_upstream =
    b'h' ∷ b't' ∷ b't' ∷ b'p' ∷ b's' ∷ b'_' ∷ b'u' ∷ b'p' ∷ b's' ∷ b't' ∷ b'r' ∷ b'e' ∷ b'a' ∷ b'm'
    ∷ []

abbrev pub https_upstream2 : List ℕ
https_upstream2 =
    b'h' ∷ b't' ∷ b't' ∷ b'p' ∷ b's' ∷ b'_' ∷ b'u' ∷ b'p' ∷ b's' ∷ b't' ∷ b'r' ∷ b'e' ∷ b'a' ∷ b'm'
    ∷ b'2' ∷ []

abbrev pub https_client_cafile : List ℕ
https_client_cafile =
    b'h' ∷ b't' ∷ b't' ∷ b'p' ∷ b's' ∷ b'_' ∷ b'c' ∷ b'l' ∷ b'i' ∷ b'e' ∷ b'n' ∷ b't' ∷ b'_' ∷ b'c'
    ∷ b'a' ∷ b'f' ∷ b'i' ∷ b'l' ∷ b'e' ∷ []

abbrev pub cache_file : List ℕ
cache_file = b'c' ∷ b'a' ∷ b'c' ∷ b'h' ∷ b'e' ∷ b'_' ∷ b'f' ∷ b'i' ∷ b'l' ∷ b'e' ∷ []

abbrev pub enable_cache : List ℕ
enable_cache =
    b'e' ∷ b'n' ∷ b'a' ∷ b'b' ∷ b'l' ∷ b'e' ∷ b'_' ∷ b'c' ∷ b'a' ∷ b'c' ∷ b'h' ∷ b'e' ∷ []

abbrev pub enable_https_to_dns : List ℕ
enable_https_to_dns =
    b'e' ∷ b'n' ∷ b'a' ∷ b'b' ∷ b'l' ∷ b'e' ∷ b'_' ∷ b'h' ∷ b't' ∷ b't' ∷ b'p' ∷ b's' ∷ b'_' ∷ b't'
    ∷ b'o' ∷ b'_' ∷ b'd' ∷ b'n' ∷ b's' ∷ []

abbrev pub dns_upstream : List ℕ
dns_upstream =
    b'd' ∷ b'n' ∷ b's' ∷ b'_' ∷ b'u' ∷ b'p' ∷ b's' ∷ b't' ∷ b'r' ∷ b'e' ∷ b'a' ∷ b'm' ∷ []

abbrev pub https_cert : List ℕ
https_cert = b'h' ∷ b't' ∷ b't' ∷ b'p' ∷ b's' ∷ b'_' ∷ b'c' ∷ b'e' ∷ b'r' ∷ b't' ∷ []

abbrev pub https_key : List ℕ
https_key = b'h' ∷ b't' ∷ b't' ∷ b'p' ∷ b's' ∷ b'_' ∷ b'k' ∷ b'e' ∷ b'y' ∷ []

abbrev pub https_server_addr : List ℕ
https_server_addr =
    b'h' ∷ b't' ∷ b't' ∷ b'p' ∷ b's' ∷ b'_' ∷ b's' ∷ b'e' ∷ b'r' ∷ b'v' ∷ b'e' ∷ b'r' ∷ b'_' ∷ b'a'
    ∷ b'd' ∷ b'd' ∷ b'r' ∷ []

abbrev pub insecure_http_server : List ℕ
insecure_http_server =
    b'i' ∷ b'n' ∷ b's' ∷ b'e' ∷ b'c' ∷ b'u' ∷ b'r' ∷ b'e' ∷ b'_' ∷ b'h' ∷ b't' ∷ b't' ∷ b'p' ∷ b'_'
    ∷ b's' ∷ b'e' ∷ b'r' ∷ b'v' ∷ b'e' ∷ b'r' ∷ []

abbrev pub monitoring_listen_addr : List ℕ
monitoring_listen_addr =
    b'm' ∷ b'o' ∷ b'n' ∷ b'i' ∷ b't' ∷ b'o' ∷ b'r' ∷ b'i' ∷ b'n' ∷ b'g' ∷ b'_' ∷ b'l' ∷ b'i' ∷ b's'
    ∷ b't' ∷ b'e' ∷ b'n' ∷ b'_' ∷ b'a' ∷ b'd' ∷ b'd' ∷ b'r' ∷ []

abbrev pub log_level : List ℕ
log_level = b'l' ∷ b'o' ∷ b'g' ∷ b'_' ∷ b'l' ∷ b'e' ∷ b'v' ∷ b'e' ∷ b'l' ∷ []

abbrev pub log_format : List ℕ
log_format = b'l' ∷ b'o' ∷ b'g' ∷ b'_' ∷ b'f' ∷ b'o' ∷ b'r' ∷ b'm' ∷ b'a' ∷ b't' ∷ []

abbrev pub proxy : List ℕ
proxy = b'p' ∷ b'r' ∷ b'o' ∷ b'x' ∷ b'y' ∷ []

abbrev pub no_proxy : List ℕ
no_proxy = b'n' ∷ b'o' ∷ b'_' ∷ b'p' ∷ b'r' ∷ b'o' ∷ b'x' ∷ b'y' ∷ []

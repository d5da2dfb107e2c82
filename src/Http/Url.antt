-- ===== src/Http/Url.antt =====
-- The texts of http_resolver.cpp: `parseUrl`, `parseProxyUrl`, `matchesNoProxy`, `detectProxy` and
-- `detectGnomeProxy`, and the address of the fallback.
pub mod RoundTrip
pub mod NoProxy
use dnss_cpp.Common.{
  ℕ, Bool, true, false, not, ◌&&◌, ◌||◌, Option, none, some, List, [], ◌∷◌, ◌++◌, ◌==◌,
  if◌then◌else◌,
}
use dnss_cpp.Common.Text.{text_eq, split_at}
use dnss_cpp.Common.Search.{split_text}
use dnss_cpp.Cache.Policy.{is_empty}

pub record Address : Type 0 where
  pub host : List ℕ
  pub port : List ℕ
  pub target : List ℕ

abbrev pub scheme_end : List ℕ
scheme_end = b':' ∷ b'/' ∷ b'/' ∷ []

abbrev pub https_port : List ℕ
https_port = b'4' ∷ b'4' ∷ b'3' ∷ []

abbrev pub dns_port : List ℕ
dns_port = b'5' ∷ b'3' ∷ []

abbrev pub proxy_port : List ℕ
proxy_port = b'8' ∷ b'0' ∷ b'0' ∷ b'0' ∷ []

-- "/dns-query"
abbrev pub default_target : List ℕ
default_target = b'/' ∷ b'd' ∷ b'n' ∷ b's' ∷ b'-' ∷ b'q' ∷ b'u' ∷ b'e' ∷ b'r' ∷ b'y' ∷ []

-- What follows "://", or the whole text.
unfoldable pub after_scheme : List ℕ → List ℕ
after_scheme url = elim (split_text scheme_end url).1 [ some rest ↦ rest | none ↦ url ]

unfoldable pub target_of : Option (List ℕ) → List ℕ
target_of none = default_target
target_of (some path) = b'/' ∷ path

unfoldable pub port_or : List ℕ → Option (List ℕ) → List ℕ
port_or port none = port
port_or port (some text) = text

unfoldable pub parse_url : List ℕ → Address
parse_url url =
    let (authority, path) = split_at b'/' (after_scheme url) in
    let (host, port) = split_at b':' authority in
    record { host = host; port = port_or https_port port; target = target_of path }

-- `rfind`: what stands before the last `c`, and what follows it, if there is one.
unfoldable pub split_last : ℕ → List ℕ → List ℕ × Option (List ℕ)
split_last c [] = ([], none)
split_last c (b ∷ bs) =
    let (before, after) = split_last c bs in
    elim after [
      | some rest ↦ (b ∷ before, some rest)
      | none ↦ if b == c then ([], some bs) else (b ∷ bs, none)
    ]

-- `while (!s.empty() && test(s.back())) s.pop_back();`
unfoldable pub pop_while : (ℕ → Bool) → List ℕ → List ℕ
pop_while test [] = []
pop_while test (b ∷ bs) =
    let rest = pop_while test bs in
    elim rest [ [] ↦ if test b then [] else b ∷ [] | c ∷ cs ↦ b ∷ c ∷ cs ]

-- `while (!s.empty() && test(s.front())) s.erase(0, 1);`
unfoldable pub erase_while : (ℕ → Bool) → List ℕ → List ℕ
erase_while test [] = []
erase_while test (b ∷ bs) = let rest = erase_while test bs in if test b then rest else b ∷ bs

unfoldable pub parse_proxy_url : List ℕ → List ℕ × List ℕ
parse_proxy_url proxy =
    let (host, port) = split_last b':' (pop_while (λ b. b == b'/') (after_scheme proxy)) in
    (host, port_or proxy_port port)

-- `getline` with a delimiter, over the whole text; a last piece that is empty makes no difference here.
unfoldable pub pieces : ℕ → List ℕ → List (List ℕ)
pieces c [] = [] ∷ []
pieces c (b ∷ bs) =
    let rest = pieces c bs in
    if b == c
    then [] ∷ rest
    else elim rest [ [] ↦ (b ∷ []) ∷ [] | piece ∷ more ↦ (b ∷ piece) ∷ more ]

unfoldable pub trim_blanks : List ℕ → List ℕ
trim_blanks entry = pop_while (λ b. b == 32) (erase_while (λ b. b == 32) entry)

unfoldable pub matches_entry : List ℕ → List ℕ → Bool
matches_entry host entry = not (is_empty entry) && (text_eq entry host || text_eq entry (b'*' ∷ []))

unfoldable pub matches_any : List ℕ → List (List ℕ) → Bool
matches_any host [] = false
matches_any host (entry ∷ entries) =
    matches_entry host (trim_blanks entry) || matches_any host entries

unfoldable pub matches_no_proxy : List ℕ → List ℕ → Bool
matches_no_proxy host no_proxy =
    if is_empty no_proxy then false else matches_any host (pieces b',' no_proxy)

unfoldable pub is_newline : ℕ → Bool
is_newline b = (b == 10) || (b == 13)

-- The first line, without line ends.
unfoldable pub first_line : List ℕ → List ℕ
first_line content = pop_while is_newline (split_at 10 content).0

-- The first variable of the environment that is set, and `""` if none is.
unfoldable pub first_set : List (Option (List ℕ)) → List ℕ
first_set [] = []
first_set (none ∷ more) = first_set more
first_set (some value ∷ more) = value

-- The file's content if it is there, the variables in the order of the code, and GNOME's proxy.
unfoldable pub detect_proxy : Option (List ℕ) → List (Option (List ℕ)) → List ℕ → List ℕ
detect_proxy (some content) env gnome = first_line content
detect_proxy none env gnome = if is_empty (first_set env) then gnome else first_set env

-- A value that gsettings prints, without line ends and quotes.
unfoldable pub unquote : List ℕ → List ℕ
unquote s = erase_while (λ b. b == 39) (pop_while (λ b. is_newline b || (b == 39)) s)

-- "'manual'"
abbrev pub manual : List ℕ
manual = 39 ∷ b'm' ∷ b'a' ∷ b'n' ∷ b'u' ∷ b'a' ∷ b'l' ∷ 39 ∷ []

-- "http://"
abbrev pub http_scheme : List ℕ
http_scheme = b'h' ∷ b't' ∷ b't' ∷ b'p' ∷ b':' ∷ b'/' ∷ b'/' ∷ []

-- From what the three calls of gsettings print.
unfoldable pub detect_gnome_proxy : List ℕ → List ℕ → List ℕ → List ℕ
detect_gnome_proxy mode host port =
    let h = unquote host in
    let p = unquote port in
    if text_eq (pop_while is_newline mode) manual && not (is_empty h) && not (is_empty p)
    then http_scheme ++ (h ++ (b':' ∷ (p ++ (b'/' ∷ []))))
    else []

-- `init` and `reload`: whether the proxy is used for the first upstream.
unfoldable pub use_proxy : List ℕ → List ℕ → List ℕ → Bool
use_proxy proxy host no_proxy = not (is_empty proxy) && not (matches_no_proxy host no_proxy)

-- Host and port of the fallback: `doFallback`.
unfoldable pub fallback_address : List ℕ → List ℕ × List ℕ
fallback_address fallback =
    let (host, port) = split_at b':' fallback in
    (
      if is_empty host then b'8' ∷ b'.' ∷ b'8' ∷ b'.' ∷ b'8' ∷ b'.' ∷ b'8' ∷ [] else host,
      port_or dns_port port,
    )

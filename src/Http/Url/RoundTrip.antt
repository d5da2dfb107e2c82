-- ===== src/Http/Url/RoundTrip.antt =====
-- What `parseUrl` and `parseProxyUrl` read of an address that is written out.
use dnss_cpp.Common.{ℕ, ◌≡◌, refl, Option, none, some, List, [], ◌∷◌, ◌++◌}
use mathlib.Core.List.{append-nil}
use dnss_cpp.Common.Text.{split_at}
use dnss_cpp.Common.Search.{IsFree, split_at-IsFree, split_at-none, split_text-IsFree}
use dnss_cpp.Http.Url.{scheme_end, https_port, after_scheme, target_of, port_or, parse_url}

-- An address of an upstream as it is written: a port and a path may be left out.
abbrev pub port_text : Option (List ℕ) → List ℕ
port_text none = []
port_text (some port) = b':' ∷ port

abbrev pub path_text : Option (List ℕ) → List ℕ
path_text none = []
path_text (some path) = b'/' ∷ path

abbrev pub url_text : List ℕ → List ℕ → Option (List ℕ) → Option (List ℕ) → List ℕ
url_text scheme host port path =
    scheme ++ (scheme_end ++ ((host ++ port_text port) ++ path_text path))

abbrev pub PortIsFree : Option (List ℕ) → Type 0
PortIsFree none = Unit
PortIsFree (some port) = IsFree b'/' port

IsFree-append : (c : ℕ) (xs ys : List ℕ) → IsFree c xs → IsFree c ys → IsFree c (xs ++ ys)
IsFree-append c [] ys h k = k
IsFree-append c (x ∷ xs) ys (h, hs) k = (h, IsFree-append c xs ys hs k)

port_text-IsFree : (port : Option (List ℕ)) → PortIsFree port → IsFree b'/' (port_text port)
port_text-IsFree none h = tt
port_text-IsFree (some port) h = (refl, h)

split_path :
    (text : List ℕ) (path : Option (List ℕ))
    → IsFree b'/' text
    → split_at b'/' (text ++ path_text path) ≡ (text, path)
split_path text none h = rw (append-nil text) (split_at-none b'/' text h)
split_path text (some path) h = split_at-IsFree b'/' text path h

split_port :
    (host : List ℕ) (port : Option (List ℕ))
    → IsFree b':' host
    → split_at b':' (host ++ port_text port) ≡ (host, port)
split_port host none h = rw (append-nil host) (split_at-none b':' host h)
split_port host (some port) h = split_at-IsFree b':' host port h

-- A URL is read as the host, the port, or 443, and the path, or /dns-query, that it is written with. The
-- scheme and the host have no colon, the host and the port no slash.
pub parse_url-url_text :
    (scheme host : List ℕ) (port path : Option (List ℕ))
    → IsFree b':' scheme
    → IsFree b':' host
    → IsFree b'/' host
    → PortIsFree port
    → parse_url (url_text scheme host port path)
      ≡ record { host = host; port = port_or https_port port; target = target_of path }
unfolding parse_url after_scheme
parse_url-url_text scheme host port path s h k p =
    let rest = (host ++ port_text port) ++ path_text path in
    rw
      (
        parse_url,
        after_scheme,
        split_text-IsFree b':' (b'/' ∷ b'/' ∷ []) scheme rest s,
        split_path (host ++ port_text port) path
            (IsFree-append b'/' host (port_text port) k (port_text-IsFree port p)),
        split_port host port h,
      )
      refl

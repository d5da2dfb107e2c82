-- ===== src/System/Servers.antt =====
-- Which name servers `detectSystemDns` finds.
use dnss_cpp.Common.{
  ℕ, ◌≡◌, refl, true, ◌||◌, Option, none, some, List, [], ◌∷◌, ◌++◌, arith, All, Bool-cases, inl,
  inr,
}
use dnss_cpp.Common.Text.{text_eq_refl, split_at}
use dnss_cpp.Common.Search.{strip_prefix}
use dnss_cpp.Cache.Policy.{is_empty}
use dnss_cpp.Http.Url.{pieces}
use dnss_cpp.System.{
  cloudflare, google, is_usable, servers_of_line, servers_of_lines, has_server, add_missing,
  detect_system_dns,
}

abbrev pub AreUsable : List (List ℕ) → Type 0
AreUsable servers = All (λ ip. is_usable ip ≡ true) servers

AreUsable-append : (xs ys : List (List ℕ)) → AreUsable xs → AreUsable ys → AreUsable (xs ++ ys)
AreUsable-append [] ys h k = k
AreUsable-append (x ∷ xs) ys (h, hs) k = (h, AreUsable-append xs ys hs k)

has_server-append :
    (ip : List ℕ) (xs ys : List (List ℕ))
    → has_server ip (xs ++ ys) ≡ (has_server ip xs || has_server ip ys)
unfolding has_server
has_server-append ip [] ys = refl
has_server-append ip (x ∷ xs) ys = ground (arith, has_server-append ip xs ys)

servers_of_line-AreUsable : (line : List ℕ) → AreUsable (servers_of_line line)
unfolding servers_of_line
servers_of_line-AreUsable line = ground arith

servers_of_lines-AreUsable : (lines : List (List ℕ)) → AreUsable (servers_of_lines lines)
unfolding servers_of_lines
servers_of_lines-AreUsable [] = tt
servers_of_lines-AreUsable (line ∷ lines) =
    AreUsable-append (servers_of_line line) (servers_of_lines lines)
      (servers_of_line-AreUsable line) (servers_of_lines-AreUsable lines)

has_itself : (ip : List ℕ) → has_server ip (ip ∷ []) ≡ true
unfolding has_server
has_itself ip = ground (arith, text_eq_refl ip)

-- A server that was missing is added, and none is lost.
add_missing-has_server :
    (ip : List ℕ) (known servers : List (List ℕ))
    → is_usable ip ≡ true
    → AreUsable servers
    → (has_server ip known ≡ true → has_server ip servers ≡ true)
    → AreUsable (add_missing ip known servers)
      × (has_server ip (add_missing ip known servers) ≡ true)
      × ((other : List ℕ)
          → has_server other servers ≡ true
          → has_server other (add_missing ip known servers) ≡ true)
unfolding add_missing
add_missing-has_server ip known servers u h k = elim (Bool-cases (has_server ip known)) [
  | inl there ↦ rw there (h, k there, (λ other o. o))
  | inr missing ↦ rw missing (
    AreUsable-append servers (ip ∷ []) h (u, tt),
    ground (arith, has_server-append ip servers (ip ∷ []), has_itself ip),
    (λ other o. ground (arith, has_server-append other servers (ip ∷ []), o)),
  )
]

cloudflare_usable : is_usable cloudflare ≡ true
unfolding is_usable is_empty split_at strip_prefix
cloudflare_usable = refl

google_usable : is_usable google ≡ true
unfolding is_usable is_empty split_at strip_prefix
google_usable = refl

-- The two public servers are there, and every server is one that may be taken.
abbrev pub AreComplete : List (List ℕ) → Type 0
AreComplete servers =
    AreUsable servers × (has_server cloudflare servers ≡ true) × (has_server google servers ≡ true)

both_added :
    (listed : List (List ℕ))
    → AreUsable listed
    → AreComplete (add_missing google listed (add_missing cloudflare listed listed))
both_added listed h =
    let (a, has, keeps) =
      add_missing-has_server cloudflare listed listed cloudflare_usable h (λ e. e) in
    let (b, has_both, keeps_both) =
      add_missing-has_server google listed (add_missing cloudflare listed listed) google_usable a
        (keeps google) in
    (b, keeps_both cloudflare has, has_both)

-- With any /etc/resolv.conf or none, no server is empty, an IPv6 address or a loopback address, and
-- 1.1.1.1 and 8.8.8.8 are among the servers.
pub detect_system_dns-AreComplete :
    (content : Option (List ℕ)) → AreComplete (detect_system_dns content)
unfolding detect_system_dns
detect_system_dns-AreComplete none = both_added [] tt
detect_system_dns-AreComplete (some content) =
    both_added (servers_of_lines (pieces 10 content))
      (servers_of_lines-AreUsable (pieces 10 content))

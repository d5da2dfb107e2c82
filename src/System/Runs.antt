-- ===== src/System/Runs.antt =====
-- Runs of the system resolver, and the theorems at them.
use dnss_cpp.Common.{ℕ, ◌≡◌, refl, true, false, Option, none, some, List, [], ◌∷◌}
use dnss_cpp.Common.Text.{text_eq, split_at, is_space, drop_spaces}
use dnss_cpp.Common.Search.{strip_prefix}
use dnss_cpp.Cache.Policy.{is_empty}
use dnss_cpp.Http.Url.{pieces}
use dnss_cpp.Server.Runs.{local_message}
use dnss_cpp.System.{
  Family, inet, Network, cloudflare, google, detect_system_dns, servers_of_lines, servers_of_line,
  read_word, until_space, is_comment, is_usable, has_server, add_missing, query,
}
use dnss_cpp.System.Order.{Answered, query-Answered}

-- "nameserver" and an address, and a loopback address in the next line.
abbrev resolv_conf : List ℕ
resolv_conf =
    b'n' ∷ b'a' ∷ b'm' ∷ b'e' ∷ b's' ∷ b'e' ∷ b'r' ∷ b'v' ∷ b'e' ∷ b'r' ∷ 32 ∷ b'9' ∷ b'.' ∷ b'9'
    ∷ 10 ∷ b'n' ∷ b'a' ∷ b'm' ∷ b'e' ∷ b's' ∷ b'e' ∷ b'r' ∷ b'v' ∷ b'e' ∷ b'r' ∷ 32 ∷ b'1' ∷ b'2'
    ∷ b'7' ∷ b'.' ∷ b'1' ∷ 10 ∷ []

found_servers :
    detect_system_dns (some resolv_conf) ≡ (b'9' ∷ b'.' ∷ b'9' ∷ []) ∷ cloudflare ∷ google ∷ []
unfolding detect_system_dns servers_of_lines servers_of_line read_word until_space drop_spaces
    is_space pieces is_comment is_usable is_empty split_at strip_prefix text_eq has_server
    add_missing
found_servers = refl

abbrev network : Network
network = record {
  servers = cloudflare ∷ [];
  doh_urls = [];
  udp_works = true;
  getaddrinfo_works = false;
  getaddrinfo_tested = false;
}

-- getaddrinfo finds an address.
abbrev lookup : List ℕ → List (Family × List ℕ)
lookup name = (inet, 9 ∷ 8 ∷ 7 ∷ 6 ∷ []) ∷ []

abbrev silent : List ℕ → List ℕ → Option (List ℕ)
silent server wire = none

query-Answered_example :
    Answered local_message network (query lookup silent silent local_message network)
query-Answered_example = query-Answered lookup silent silent local_message network

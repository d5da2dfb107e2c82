-- ===== src/System.antt =====
-- system_resolver.hpp and system_resolver.cpp: name servers from /etc/resolv.conf, and a query that
-- tries getaddrinfo, UDP and DoH in turn. The calls of the system are functions: `lookup` is what
-- getaddrinfo finds for a name, a list of families and addresses, `exchange` the bytes that a server
-- answers over UDP, and `post` the body that a DoH server answers, where curl had no error.
pub mod Asked
pub mod Order
pub mod Servers
pub mod Probe
pub mod Runs
use dnss_cpp.Common.{
  ℕ, Bool, true, false, not, ◌&&◌, ◌||◌, Option, none, some, List, [], ◌∷◌, ◌++◌, ltb, ◌==◌,
  if◌then◌else◌, length, take, Result, ok, throw, out_of_bounds, out_of_fuel, ◌>>=◌,
}
use dnss_cpp.Common.Text.{text_eq, split_at, is_space, drop_spaces}
use dnss_cpp.Common.Search.{strip_prefix}
use dnss_cpp.Cache.Policy.{is_empty}
use dnss_cpp.Http.Url.{pieces}
use dnss_cpp.Protocol.Header.{rcode, set_rcode}
use dnss_cpp.Protocol.Message.{
  DnsMessage, DnsQuestion, DnsResourceRecord, type_a, type_aaaa, form_err, serv_fail, nx_domain,
  create_reply, create_error,
}
use dnss_cpp.Protocol.Parse.{parse}
use dnss_cpp.Protocol.Pack.{pack}
use dnss_cpp.Server.HandleQuery.{with_id}

-- "nameserver"
abbrev pub nameserver : List ℕ
nameserver = b'n' ∷ b'a' ∷ b'm' ∷ b'e' ∷ b's' ∷ b'e' ∷ b'r' ∷ b'v' ∷ b'e' ∷ b'r' ∷ []

-- "1.1.1.1" and "8.8.8.8"
abbrev pub cloudflare : List ℕ
cloudflare = b'1' ∷ b'.' ∷ b'1' ∷ b'.' ∷ b'1' ∷ b'.' ∷ b'1' ∷ []

abbrev pub google : List ℕ
google = b'8' ∷ b'.' ∷ b'8' ∷ b'.' ∷ b'8' ∷ b'.' ∷ b'8' ∷ []

-- "127."
abbrev pub loopback : List ℕ
loopback = b'1' ∷ b'2' ∷ b'7' ∷ b'.' ∷ []

-- `iss >> word` behind the blanks: the word, and the rest.
unfoldable pub until_space : List ℕ → List ℕ × List ℕ
until_space [] = ([], [])
until_space (b ∷ bs) =
    let (word, rest) = until_space bs in if is_space b then ([], b ∷ bs) else (b ∷ word, rest)

unfoldable pub read_word : List ℕ → List ℕ × List ℕ
read_word text = until_space (drop_spaces text)

unfoldable pub is_comment : List ℕ → Bool
is_comment [] = true
is_comment (b ∷ bs) = b == b'#'

-- An address that is taken: no IPv6 and no loopback.
unfoldable pub is_usable : List ℕ → Bool
is_usable ip =
    not (is_empty ip)
    && elim (split_at b':' ip).1 [ none ↦ true | some rest ↦ false ]
    && elim (strip_prefix loopback ip) [ none ↦ true | some rest ↦ false ]

unfoldable pub servers_of_line : List ℕ → List (List ℕ)
servers_of_line line =
    let (directive, rest) = read_word line in
    let ip = (read_word rest).0 in
    if not (is_comment line) && text_eq directive nameserver && is_usable ip then ip ∷ [] else []

unfoldable pub servers_of_lines : List (List ℕ) → List (List ℕ)
servers_of_lines [] = []
servers_of_lines (line ∷ lines) = servers_of_line line ++ servers_of_lines lines

unfoldable pub has_server : List ℕ → List (List ℕ) → Bool
has_server ip [] = false
has_server ip (s ∷ servers) = text_eq s ip || has_server ip servers

unfoldable pub add_missing : List ℕ → List (List ℕ) → List (List ℕ) → List (List ℕ)
add_missing ip known servers = if has_server ip known then servers else servers ++ (ip ∷ [])

-- The servers, all at port 53, of the file's content if it opens.
unfoldable pub detect_system_dns : Option (List ℕ) → List (List ℕ)
detect_system_dns none = add_missing google [] (add_missing cloudflare [] [])
detect_system_dns (some content) =
    let listed = servers_of_lines (pieces 10 content) in
    add_missing google listed (add_missing cloudflare listed listed)

-- AF_INET and AF_INET6.
pub data Family : Type 0 where
  inet inet6 : Family

unfoldable pub record_of : DnsQuestion → ℕ → List ℕ → DnsResourceRecord
record_of q type address = record {
  name = q.qname;
  type = type;
  rclass = 1;
  ttl = 300;
  rdata = address;
}

unfoldable pub address_records : DnsQuestion → List (Family × List ℕ) → List DnsResourceRecord
address_records q [] = []
address_records q ((inet, address) ∷ more) =
    let rest = address_records q more in
    if q.qtype == type_a then record_of q type_a (take 4 address) ∷ rest else rest
address_records q ((inet6, address) ∷ more) =
    let rest = address_records q more in
    if q.qtype == type_aaaa then record_of q type_aaaa (take 16 address) ∷ rest else rest

-- No record of the type that was asked for is NXDOMAIN.
unfoldable pub with_addresses : DnsMessage → List DnsResourceRecord → DnsMessage
with_addresses reply [] = record reply { header = set_rcode nx_domain reply.header }
with_addresses reply (r ∷ rs) = record reply { answers = reply.answers ++ (r ∷ rs) }

-- No result at all is a reply without records.
unfoldable pub with_found : DnsMessage → DnsQuestion → List (Family × List ℕ) → DnsMessage
with_found reply q [] = reply
with_found reply q (f ∷ fs) = with_addresses reply (address_records q (f ∷ fs))

unfoldable pub query_getaddrinfo :
    (List ℕ → List (Family × List ℕ)) → DnsMessage → DnsQuestion → DnsMessage
query_getaddrinfo lookup req q = with_found (create_reply req) q (lookup q.qname)

-- An answer that parses, under the identifier of the request; or what the next server says.
unfoldable pub or_next :
    ℕ → Result DnsMessage → Result (Option DnsMessage) → Result (Option DnsMessage)
or_next id (ok m) next = ok (some (with_id id m))
or_next id (throw e) next = next
or_next id out_of_bounds next = out_of_bounds
or_next id out_of_fuel next = out_of_fuel

unfoldable pub on_answer :
    ℕ → Option (List ℕ) → Result (Option DnsMessage) → Result (Option DnsMessage)
on_answer id none next = next
on_answer id (some answer) next =
    if ltb (length answer) 12 then next else or_next id (parse answer) next

-- The loop over servers: one that does not answer, with fewer than 12 bytes or with bytes that do not
-- parse, is passed over.
unfoldable pub ask_servers :
    (List ℕ → Option (List ℕ)) → ℕ → List (List ℕ) → Result (Option DnsMessage)
ask_servers ask id [] = ok none
ask_servers ask id (server ∷ servers) = on_answer id (ask server) (ask_servers ask id servers)

-- `queryDoh`: the request is packed once.
unfoldable pub query_servers :
    (List ℕ → List ℕ → Option (List ℕ)) → List (List ℕ) → DnsMessage → Result (Option DnsMessage)
query_servers exchange servers req = do
  wire ← pack req
  ask_servers (λ server. exchange server wire) req.header.id servers

-- `queryUdp` looks first whether there are servers.
unfoldable pub query_udp :
    (List ℕ → List ℕ → Option (List ℕ)) → List (List ℕ) → DnsMessage → Result (Option DnsMessage)
query_udp exchange [] req = ok none
query_udp exchange (server ∷ servers) req = query_servers exchange (server ∷ servers) req

-- What the resolver has found out of the network.
pub record Network : Type 0 where
  pub servers : List (List ℕ)
  pub doh_urls : List (List ℕ)
  pub udp_works : Bool
  pub getaddrinfo_works : Bool
  pub getaddrinfo_tested : Bool

-- The first strategy: a reply with answers, and the state.
unfoldable pub keep_answered :
    DnsMessage → List DnsResourceRecord → Network → Option DnsMessage × Network
keep_answered result [] net = (none, net)
keep_answered result (a ∷ rest) net =
    let known = record net { getaddrinfo_works = true; getaddrinfo_tested = true } in
    if not net.getaddrinfo_tested
    then (some result, known)
    else if net.getaddrinfo_works
    then (some result, net)
    else (none, net)

unfoldable pub try_getaddrinfo :
    (List ℕ → List (Family × List ℕ))
    → DnsMessage
    → DnsQuestion
    → Network
    → Option DnsMessage × Network
try_getaddrinfo lookup req q net =
    let result = query_getaddrinfo lookup req q in
    if (q.qtype == type_a) || (q.qtype == type_aaaa)
    then keep_answered result result.answers net
    else (none, net)

-- A reply over UDP that is not SERVFAIL.
unfoldable pub accept_udp : Option DnsMessage → Option DnsMessage
accept_udp none = none
accept_udp (some reply) = if rcode reply.header == serv_fail then none else some reply

-- A reply is returned, and without one the next strategy is tried.
unfoldable pub or_else : Result (Option DnsMessage) → Result DnsMessage → Result DnsMessage
or_else (ok (some reply)) next = ok reply
or_else (ok none) next = next
or_else (throw e) next = throw e
or_else out_of_bounds next = out_of_bounds
or_else out_of_fuel next = out_of_fuel

module _ (lookup : List ℕ → List (Family × List ℕ))
    (exchange post : List ℕ → List ℕ → Option (List ℕ)) where
  unfoldable pub query_network : DnsMessage → Network → Result DnsMessage
  query_network req net =
      let udp = query_udp exchange net.servers req in
      let tried = (do reply ← udp; ok (accept_udp reply)) in
      let doh = query_servers post net.doh_urls req in
      let failure = ok (create_error req serv_fail) in
      if net.udp_works
      then or_else tried (or_else doh failure)
      else or_else doh (or_else udp failure)

  unfoldable pub query_question : DnsMessage → DnsQuestion → Network → Result (DnsMessage × Network)
  query_question req q net =
      let (found, after) = try_getaddrinfo lookup req q net in
      elim found [
        | some reply ↦ ok (reply, after)
        | none ↦ (do reply ← query_network req net; ok (reply, after))
      ]

  unfoldable pub query : DnsMessage → Network → Result (DnsMessage × Network)
  query req net = elim req.questions [
    | [] ↦ ok (create_error req form_err, net)
    | q ∷ qs ↦ query_question req q net
  ]

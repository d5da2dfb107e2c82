-- ===== src/Server/Runs.antt =====
-- Runs of the server's parts, and the theorems at them.
use dnss_cpp.Common.{
  Called, returned, ℕ, ◌+◌, ◌-◌, min, ◌≡◌, refl, true, false, Option, none, List, [], ◌∷◌, ltb,
  if◌then◌else◌, arith, ok, throw, truncated_name,
}
use dnss_cpp.Common.Text.{text_eq}
use dnss_cpp.Protocol.Message.{DnsMessage, DnsQuestion}
use dnss_cpp.Protocol.Buffer.{read, read_range}
use dnss_cpp.Protocol.Words.{read_u16}
use dnss_cpp.Protocol.Name.{
  wire_to_name, scan, scan_step, on_length, read_label, end_of_name, add_label,
}
use dnss_cpp.Protocol.Parse.{parse, parse_header, parse_entries, parse_question}
use dnss_cpp.Cache.{hash_name}
use dnss_cpp.Cache.Peek.{peek_cache_raw, raw_question, raw_counted, raw_name, raw_step, raw_type}
use dnss_cpp.Cache.Runs.{holding, settings}
use dnss_cpp.Server.RateLimiter.{Shards, Entry, entry_of, shard_of, is_local, allow, counted}
use dnss_cpp.Server.RateLimiter.Window.{entry_in, allowed, allow-entry_in, allowed-min}
use dnss_cpp.Server.ThreadPool.{Pool, create, try_enqueue, offered, here, then_step}
use dnss_cpp.Server.ThreadPool.Bounds.{IsBounded, Reaches-IsBounded}
use dnss_cpp.Server.HandleQuery.{Exchange, handle_query}
use dnss_cpp.Server.HandleQuery.Answers.{Settles, Handles, AsksWithId, handle_query-Handles}
use dnss_cpp.Server.Worker.{Served}
use dnss_cpp.Server.Worker.Rounds.{Holds, Rounds}

abbrev pub ip : List ℕ
ip = b'1' ∷ []

abbrev jp : List ℕ
jp = b'2' ∷ []

abbrev no_clients : Shards
no_clients i = []

far : is_local ip ≡ false
unfolding is_local text_eq
far = refl

allow-entry_in_example :
    ((allow 7 ip no_clients).0
      ≡ (if ltb 100 (counted 7 (entry_in ip no_clients)).count then false else true))
    × (entry_in jp (allow 7 ip no_clients).1
        ≡ (if text_eq jp ip then counted 7 (entry_in ip no_clients) else entry_in jp no_clients))
allow-entry_in_example = allow-entry_in 7 ip jp no_clients far

abbrev fresh : Entry
fresh = record { last = 0; count = 0 }

no_entry : entry_in ip no_clients ≡ fresh
unfolding entry_of
no_entry = refl

allowed-min_example : allowed (7 ∷ 8 ∷ []) ip no_clients ≡ min 2 (100 - 0)
allowed-min_example =
    allowed-min ip far (7 ∷ 8 ∷ []) no_clients fresh no_entry (omega arith, (omega arith, tt))

abbrev pool : Pool (List ℕ)
pool = (try_enqueue ip (create 24 300)).1

Reaches-IsBounded_example : IsBounded pool
Reaches-IsBounded_example =
    Reaches-IsBounded 24 300 pool (omega arith) (omega arith) (then_step here (offered ip))

-- A request for the address of `a.local`.
abbrev pub local_request : List ℕ
local_request =
    0 ∷ 7 ∷ 1 ∷ 0 ∷ 0 ∷ 1 ∷ 0 ∷ 0 ∷ 0 ∷ 0 ∷ 0 ∷ 0 ∷ 1 ∷ b'a' ∷ 5 ∷ b'l' ∷ b'o' ∷ b'c' ∷ b'a' ∷ b'l'
    ∷ 0 ∷ 0 ∷ 1 ∷ 0 ∷ 1 ∷ []

abbrev local_question : DnsQuestion
local_question = record {
  qname = b'a' ∷ b'.' ∷ b'l' ∷ b'o' ∷ b'c' ∷ b'a' ∷ b'l' ∷ [];
  qtype = 1;
  qclass = 1;
}

abbrev pub local_message : DnsMessage
local_message = record {
  header = record { id = 7; flags = 0x0100; qdcount = 1; ancount = 0; nscount = 0; arcount = 0 };
  questions = local_question ∷ [];
  answers = [];
  authorities = [];
  additionals = [];
}

parsed : parse local_request ≡ ok local_message
unfolding parse parse_header read_u16 read parse_entries parse_question wire_to_name scan scan_step
    on_length read_label read_range end_of_name add_label
parsed = refl

-- A resolver that counts its requests and has no answer, and servers that do not answer.
abbrev ask : DnsMessage → ℕ → Called (Option DnsMessage) × ℕ
ask req n = (returned none, n + 1)

abbrev silent : Exchange
silent host port wire = none

ask-HasId : AsksWithId ask
ask-HasId req st m e = absurd (cc)

handle_query-Handles_example :
    Settles
      (Handles ask ask-HasId silent (parse local_request))
      (handle_query ask silent [] [] local_request 0)
handle_query-Handles_example = handle_query-Handles ask ask-HasId silent [] [] local_request 0

-- A header that promises a question, and nothing behind it.
abbrev pub cut : List ℕ
cut = 0 ∷ 7 ∷ 1 ∷ 0 ∷ 0 ∷ 1 ∷ 0 ∷ 0 ∷ 0 ∷ 0 ∷ 0 ∷ 0 ∷ []

abbrev pub saturated : Served
saturated = record { shards = no_clients; pool = create 24 0; cache = holding [] }

pub saturated-Holds : Holds saturated
unfolding create
saturated-Holds = ((omega arith, tt, omega arith), omega arith)

first_allowed : (allow 1 ip no_clients).0 ≡ true
unfolding allow is_local text_eq counted entry_of shard_of hash_name
first_allowed = refl

not_found : peek_cache_raw 1 settings cut (holding []) ≡ ok (none, holding [])
unfolding peek_cache_raw raw_question raw_counted raw_name raw_step raw_type read_u16 read
not_found = refl

not_parsed : parse cut ≡ throw truncated_name
unfolding parse parse_header read_u16 read parse_entries parse_question wire_to_name scan scan_step
not_parsed = refl

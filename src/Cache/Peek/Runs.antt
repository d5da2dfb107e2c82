-- ===== src/Cache/Peek/Runs.antt =====
-- Runs of the lookups before a request goes to a worker, and the theorems at them.
use dnss_cpp.Common.{ℕ, ◌≡◌, ◌⊎◌, refl, true, none, some, List, [], ◌∷◌, arith, All, ok, returned}
use dnss_cpp.Protocol.Buffer.{read}
use dnss_cpp.Protocol.Buffer.Stands.{Stands}
use dnss_cpp.Protocol.Words.{read_u16, write_u16}
use dnss_cpp.Protocol.Name.Labels.{IsLabel, wire_labels, join, dotted}
use dnss_cpp.Protocol.Pack.Fields.{question_bytes}
use dnss_cpp.Cache.Query.{query}
use dnss_cpp.Cache.Peek.{peek_cache, raw_question}
use dnss_cpp.Cache.Peek.Wire.{raw_question-parse_question}
use dnss_cpp.Protocol.Parse.{parse_question}
use dnss_cpp.Protocol.Message.{DnsQuestion}
use dnss_cpp.Cache.Peek.Agree.{peek_cache-query}
use dnss_cpp.Cache.Runs.{holding, settings, upstream, request}

-- A request for the address of `a`.
abbrev raw : List ℕ
raw = 0 ∷ 7 ∷ 1 ∷ 0 ∷ 0 ∷ 1 ∷ 0 ∷ 0 ∷ 0 ∷ 0 ∷ 0 ∷ 0 ∷ 1 ∷ b'a' ∷ 0 ∷ 0 ∷ 1 ∷ 0 ∷ 1 ∷ []

abbrev labels : List (List ℕ)
labels = (b'a' ∷ []) ∷ []

labels-IsLabel : All IsLabel labels
labels-IsLabel = ((omega arith, omega arith, ((λ e. absurd (omega arith)), tt)), tt)

raw-Stands : Stands raw 12 (question_bytes labels labels-IsLabel raw 12 1 1)
unfolding wire_labels write_u16
raw-Stands = record { inside = omega arith; rest = []; here = refl }

one_question : read_u16 raw 4 ≡ ok 1
unfolding read_u16 read
one_question = refl

abbrev asked_question : DnsQuestion
asked_question = record { qname = b'a' ∷ []; qtype = 1; qclass = 1 }

peek_cache-query_example :
    (returned (peek_cache 1 settings request (holding [])).0
      ≡ (query upstream true true settings 1 2 request (holding [])).0)
    ⊎ (peek_cache 1 settings request (holding []) ≡ (none, holding []))
peek_cache-query_example = peek_cache-query upstream true true settings 1 2 request (holding [])

raw_question-parse_question_example :
    (raw_question raw ≡ ok (some asked_question))
    × (parse_question raw 12 ≡ ok (asked_question, 19))
unfolding join dotted wire_labels write_u16
raw_question-parse_question_example =
    raw_question-parse_question labels labels-IsLabel raw 1 1 1 (omega arith) (omega arith)
      one_question (λ e. absurd (omega arith)) raw-Stands

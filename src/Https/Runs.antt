-- ===== src/Https/Runs.antt =====
-- Runs of the handler of https_server.cpp.
use dnss_cpp.Common.{ℕ, ◌≡◌, refl, arith, true, false, some, List, [], ◌∷◌, ok}
use dnss_cpp.Protocol.Parse.{parse}
use dnss_cpp.Protocol.Pack.{
  pack, pack_question, pack_rr, pack_entries, pack_header, packed_size, question_size, rr_size,
  add_sizes,
}
use dnss_cpp.Protocol.Words.{write_u16, write_u32}
use dnss_cpp.Protocol.Name.{split_dot, emit_label, emit_labels, is_root, name_to_wire}
use dnss_cpp.Protocol.Runs.{message, question, message-IsMessage}
use dnss_cpp.Common.Text.{text_eq}
use dnss_cpp.Server.HandleQuery.{Exchange, with_id}
use dnss_cpp.Https.{
  Request, get, post, dns_query, dns_message, not_implemented, unsupported, unsupported_type,
  success, accepts, serve, is_valid_path, is_post, is_get, is_dns_post, refusal, response_of,
}
use dnss_cpp.Https.Relay.{serve-relays}

-- The bytes of the message: a header, a question for `ab.c`, an address and an alias.
abbrev wire : List ℕ
wire =
    0 ∷ 7 ∷ 129 ∷ 128 ∷ 0 ∷ 1 ∷ 0 ∷ 2 ∷ 0 ∷ 0 ∷ 0 ∷ 0 ∷ 2 ∷ b'a' ∷ b'b' ∷ 1 ∷ b'c' ∷ 0 ∷ 0 ∷ 1 ∷ 0
    ∷ 1 ∷ 2 ∷ b'a' ∷ b'b' ∷ 1 ∷ b'c' ∷ 0 ∷ 0 ∷ 1 ∷ 0 ∷ 1 ∷ 0 ∷ 0 ∷ 1 ∷ 44 ∷ 0 ∷ 4 ∷ 10 ∷ 0 ∷ 0 ∷ 1
    ∷ 2 ∷ b'a' ∷ b'b' ∷ 1 ∷ b'c' ∷ 0 ∷ 0 ∷ 5 ∷ 0 ∷ 1 ∷ 0 ∷ 0 ∷ 0 ∷ 60 ∷ 0 ∷ 6 ∷ 2 ∷ b'a' ∷ b'b' ∷ 1
    ∷ b'c' ∷ 0 ∷ []

message_packed : pack message ≡ ok wire
unfolding pack pack_question pack_rr pack_entries pack_header packed_size question_size rr_size
    add_sizes write_u16 write_u32 split_dot emit_label emit_labels is_root name_to_wire
message_packed = refl

abbrev exchange : Exchange
exchange host port query = some wire

-- `a:9`
abbrev upstream : List ℕ
upstream = b'a' ∷ b':' ∷ b'9' ∷ []

abbrev request : Request
request = record { method = post; target = dns_query; content_type = dns_message; body = wire }

is_accepted : accepts false request ≡ true
unfolding accepts is_valid_path is_dns_post is_post text_eq
is_accepted = refl

serve-relays_example :
    (back : List ℕ) × (serve false exchange upstream request ≡ ok (some (success back)))
    × (parse back ≡ ok (with_id 7 message))
serve-relays_example =
    serve-relays exchange upstream wire wire message message message-IsMessage message-IsMessage
      message_packed message_packed (omega arith) refl false request question [] is_accepted refl
      refl

-- A request by GET, with TLS and without.
serve-get :
    (serve true exchange upstream (record request { method = get }) ≡ ok (some unsupported))
    × (serve false exchange upstream (record request { method = get }) ≡ ok (some not_implemented))
unfolding serve accepts is_valid_path is_dns_post is_post is_get refusal response_of text_eq
serve-get = (refl, refl)

-- A path that is not served.
serve-path :
    serve false exchange upstream (record request { target = b'/' ∷ [] })
    ≡ ok (some unsupported_type)
unfolding serve accepts is_valid_path is_dns_post is_post is_get refusal response_of text_eq
serve-path = refl

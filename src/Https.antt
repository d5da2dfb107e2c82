-- ===== src/Https.antt =====
-- https_server.cpp: what the server does with one request, from the request to the response. With TLS
-- the path is not looked at. `exchange` is what the sockets do with a host, a port and a query: the bytes
-- of an answer, or nothing where the code throws.
pub mod Answers
pub mod Relay
pub mod Runs
use dnss_cpp.Common.{
  ℕ, Bool, true, false, not, ◌&&◌, ◌||◌, Option, none, some, List, [], ◌∷◌, if◌then◌else◌, take,
  Result, ok, throw, out_of_bounds, out_of_fuel, ◌>>=◌,
}
use dnss_cpp.Common.Text.{text_eq, split_at}
use dnss_cpp.Protocol.Message.{DnsMessage, DnsQuestion, serv_fail, create_error}
use dnss_cpp.Protocol.Parse.{parse}
use dnss_cpp.Protocol.Pack.{pack}
use dnss_cpp.Server.HandleQuery.{Exchange, with_id, split_port}

pub data Method : Type 0 where
  get post other : Method

pub record Request : Type 0 where
  pub method : Method
  pub target : List ℕ
  pub content_type : List ℕ
  pub body : List ℕ

pub record Response : Type 0 where
  pub status : ℕ
  pub content_type : List ℕ
  pub body : List ℕ

-- "application/dns-message"
abbrev pub dns_message : List ℕ
dns_message =
    b'a' ∷ b'p' ∷ b'p' ∷ b'l' ∷ b'i' ∷ b'c' ∷ b'a' ∷ b't' ∷ b'i' ∷ b'o' ∷ b'n' ∷ b'/' ∷ b'd' ∷ b'n'
    ∷ b's' ∷ b'-' ∷ b'm' ∷ b'e' ∷ b's' ∷ b's' ∷ b'a' ∷ b'g' ∷ b'e' ∷ []

-- "text/plain"
abbrev pub text_plain : List ℕ
text_plain = b't' ∷ b'e' ∷ b'x' ∷ b't' ∷ b'/' ∷ b'p' ∷ b'l' ∷ b'a' ∷ b'i' ∷ b'n' ∷ []

-- "/dns-query"
abbrev pub dns_query : List ℕ
dns_query = b'/' ∷ b'd' ∷ b'n' ∷ b's' ∷ b'-' ∷ b'q' ∷ b'u' ∷ b'e' ∷ b'r' ∷ b'y' ∷ []

-- "/resolve"
abbrev pub resolve_path : List ℕ
resolve_path = b'/' ∷ b'r' ∷ b'e' ∷ b's' ∷ b'o' ∷ b'l' ∷ b'v' ∷ b'e' ∷ []

-- "invalid DNS message"
abbrev pub invalid_message : Response
invalid_message = record {
  status = 400;
  content_type = text_plain;
  body =
      b'i' ∷ b'n' ∷ b'v' ∷ b'a' ∷ b'l' ∷ b'i' ∷ b'd' ∷ b' ' ∷ b'D' ∷ b'N' ∷ b'S' ∷ b' ' ∷ b'm'
      ∷ b'e' ∷ b's' ∷ b's' ∷ b'a' ∷ b'g' ∷ b'e' ∷ [];
}

-- "unsupported request"
abbrev pub unsupported : Response
unsupported = record {
  status = 400;
  content_type = text_plain;
  body =
      b'u' ∷ b'n' ∷ b's' ∷ b'u' ∷ b'p' ∷ b'p' ∷ b'o' ∷ b'r' ∷ b't' ∷ b'e' ∷ b'd' ∷ b' ' ∷ b'r'
      ∷ b'e' ∷ b'q' ∷ b'u' ∷ b'e' ∷ b's' ∷ b't' ∷ [];
}

-- "unsupported request type"
abbrev pub unsupported_type : Response
unsupported_type = record {
  status = 400;
  content_type = text_plain;
  body =
      b'u' ∷ b'n' ∷ b's' ∷ b'u' ∷ b'p' ∷ b'p' ∷ b'o' ∷ b'r' ∷ b't' ∷ b'e' ∷ b'd' ∷ b' ' ∷ b'r'
      ∷ b'e' ∷ b'q' ∷ b'u' ∷ b'e' ∷ b's' ∷ b't' ∷ b' ' ∷ b't' ∷ b'y' ∷ b'p' ∷ b'e' ∷ [];
}

-- "GET method not yet implemented"
abbrev pub not_implemented : Response
not_implemented = record {
  status = 501;
  content_type = text_plain;
  body =
      b'G' ∷ b'E' ∷ b'T' ∷ b' ' ∷ b'm' ∷ b'e' ∷ b't' ∷ b'h' ∷ b'o' ∷ b'd' ∷ b' ' ∷ b'n' ∷ b'o'
      ∷ b't' ∷ b' ' ∷ b'y' ∷ b'e' ∷ b't' ∷ b' ' ∷ b'i' ∷ b'm' ∷ b'p' ∷ b'l' ∷ b'e' ∷ b'm' ∷ b'e'
      ∷ b'n' ∷ b't' ∷ b'e' ∷ b'd' ∷ [];
}

abbrev pub success : List ℕ → Response
success wire = record { status = 200; content_type = dns_message; body = wire }

unfoldable pub is_valid_path : List ℕ → Bool
is_valid_path target = text_eq target dns_query || text_eq target resolve_path

unfoldable pub is_post : Method → Bool
is_post get = false
is_post post = true
is_post other = false

unfoldable pub is_get : Method → Bool
is_get get = true
is_get post = false
is_get other = false

unfoldable pub is_dns_post : Request → Bool
is_dns_post r = is_post r.method && text_eq r.content_type dns_message

-- The answer of the upstream, which fits in 4096 bytes, with the identifier of the query.
unfoldable pub answered : ℕ → Option (List ℕ) → Result (Option DnsMessage)
answered id none = ok none
answered id (some bytes) = do m ← parse (take 4096 bytes); ok (some (with_id id m))

-- An exception in between is a SERVFAIL.
unfoldable pub or_error : DnsMessage → Result (Option DnsMessage) → Result DnsMessage
or_error req (ok (some reply)) = ok reply
or_error req (ok none) = ok (create_error req serv_fail)
or_error req (throw e) = ok (create_error req serv_fail)
or_error req out_of_bounds = out_of_bounds
or_error req out_of_fuel = out_of_fuel

-- Host and port of the upstream.
abbrev pub address_of : List ℕ → List ℕ × List ℕ
address_of upstream = split_port (split_at b':' upstream)

unfoldable pub ask_upstream : Exchange → List ℕ → DnsMessage → Result (Option DnsMessage)
ask_upstream exchange upstream req = do
  wire ← pack req
  answered req.header.id (exchange (address_of upstream).0 (address_of upstream).1 wire)

unfoldable pub upstream_reply : Exchange → List ℕ → DnsMessage → Result DnsMessage
upstream_reply exchange upstream req = or_error req (ask_upstream exchange upstream req)

-- The response to a message that has arrived; a message without questions is not one.
unfoldable pub serve_questions : Exchange → List ℕ → DnsMessage → List DnsQuestion → Result Response
serve_questions exchange upstream req [] = ok invalid_message
serve_questions exchange upstream req (q ∷ qs) = do
  reply ← upstream_reply exchange upstream req
  wire ← pack reply
  ok (success wire)

unfoldable pub serve_body : Exchange → List ℕ → List ℕ → Result Response
serve_body exchange upstream body = do
  req ← parse body
  serve_questions exchange upstream req req.questions

-- The response to a request that is no message.
unfoldable pub refusal : Bool → Request → Response
refusal true r = unsupported
refusal false r =
    if is_valid_path r.target && is_get r.method then not_implemented else unsupported_type

unfoldable pub accepts : Bool → Request → Bool
accepts true r = is_dns_post r
accepts false r = is_valid_path r.target && is_dns_post r

-- An exception is logged, and the connection closed with no response.
unfoldable pub response_of : Result Response → Result (Option Response)
response_of (ok r) = ok (some r)
response_of (throw e) = ok none
response_of out_of_bounds = out_of_bounds
response_of out_of_fuel = out_of_fuel

unfoldable pub serve : Bool → Exchange → List ℕ → Request → Result (Option Response)
serve tls exchange upstream r =
    response_of (if accepts tls r then serve_body exchange upstream r.body else ok (refusal tls r))

-- ===== src/Https/Relay.antt =====
-- A query that https_server.cpp takes by POST, and the answer of its upstream, all the way.
use mathlib.Core.Path.{subst}
use dnss_cpp.Common.{
  ℕ, suc, zero, ◌≤◌, ◌≡◌, refl, sym, ap, ◌∙◌, Bool, true, some, List, [], ◌∷◌, arith, length, take,
  ok, ◌>>=◌,
}
use dnss_cpp.Protocol.Message.{DnsMessage, DnsQuestion}
use dnss_cpp.Protocol.Message.WellFormed.{IsMessage}
use dnss_cpp.Protocol.Parse.{parse}
use dnss_cpp.Protocol.Pack.{pack}
use dnss_cpp.Protocol.Pack.RoundTrip.{parse-pack}
use dnss_cpp.Server.HandleQuery.{Exchange, with_id}
use dnss_cpp.Https.{
  Request, success, address_of, answered, or_error, ask_upstream, upstream_reply, serve_questions,
  serve_body, accepts, response_of, serve,
}

take-whole : (n : ℕ) (xs : List ℕ) → length xs ≤ n → take n xs ≡ xs
take-whole zero [] h = refl
take-whole (suc n) [] h = refl
take-whole zero (x ∷ xs) h = absurd (omega (arith, h))
take-whole (suc n) (x ∷ xs) h = ap (λ ys. x ∷ ys) (take-whole n xs (omega (arith, h)))

with_id-IsMessage :
    (m r : DnsMessage) → IsMessage m → IsMessage r → IsMessage (with_id m.header.id r)
with_id-IsMessage m r v w = record {
  id_fits = v.id_fits;
  flags_fit = w.flags_fit;
  qdcount = w.qdcount;
  ancount = w.ancount;
  nscount = w.nscount;
  arcount = w.arcount;
  questions_fit = w.questions_fit;
  answers_fit = w.answers_fit;
  authorities_fit = w.authorities_fit;
  additionals_fit = w.additionals_fit;
  questions = w.questions;
  answers = w.answers;
  authorities = w.authorities;
  additionals = w.additionals;
}

ok-injective : {a b : List ℕ} → ok a ≡ ok b → a ≡ b
ok-injective e = cc

-- The bytes of a message that is well-formed parse to it.
parse-packed : (m : DnsMessage) (buf : List ℕ) → IsMessage m → pack m ≡ ok buf → parse buf ≡ ok m
parse-packed m buf v e =
    let (b, packed, parsed) = parse-pack m v in
    subst (λ b. parse b ≡ ok m) (ok-injective (sym packed ∙ e)) parsed

module _ (exchange : Exchange) (upstream wire answer : List ℕ) (m r : DnsMessage) (v : IsMessage m)
    (w : IsMessage r) (packed : pack m ≡ ok wire) (packed_r : pack r ≡ ok answer)
    (size : length answer ≤ 4096)
    (e : exchange (address_of upstream).0 (address_of upstream).1 wire ≡ some answer) where
  answered-with_id : answered m.header.id (some answer) ≡ ok (some (with_id m.header.id r))
  unfolding answered
  answered-with_id =
      rw (answered, take-whole 4096 answer size, parse-packed r answer w packed_r) refl

  upstream_reply-with_id : upstream_reply exchange upstream m ≡ ok (with_id m.header.id r)
  unfolding upstream_reply ask_upstream or_error
  upstream_reply-with_id =
      ap
        (λ b. or_error m (do
          x ← b
          answered m.header.id (exchange (address_of upstream).0 (address_of upstream).1 x)))
        packed
      ∙ ap (λ o. or_error m (answered m.header.id o)) e
      ∙ ap (or_error m) answered-with_id

  questions-success :
      (q : DnsQuestion) (qs : List DnsQuestion) (back : List ℕ)
      → pack (with_id m.header.id r) ≡ ok back
      → serve_questions exchange upstream m (q ∷ qs) ≡ ok (success back)
  unfolding serve_questions
  questions-success q qs back p =
      ap (λ x. (do reply ← x; sent ← pack reply; ok (success sent))) upstream_reply-with_id
      ∙ ap (λ x. (do sent ← x; ok (success sent))) p

  -- A well-formed query with a question that comes by an accepted POST, packed, where the upstream of the
  -- server answers its bytes with a well-formed message of at most 4096 bytes, is answered with status
  -- 200, and with bytes that parse to the message of the upstream under the identifier of the query.
  pub serve-relays :
      (tls : Bool) (req : Request) (q : DnsQuestion) (qs : List DnsQuestion)
      → accepts tls req ≡ true
      → req.body ≡ wire
      → m.questions ≡ q ∷ qs
      → (back : List ℕ) × (serve tls exchange upstream req ≡ ok (some (success back)))
        × (parse back ≡ ok (with_id m.header.id r))
  unfolding serve serve_body response_of
  serve-relays tls req q qs yes_post body asked =
      let (back, p, parsed) = parse-pack (with_id m.header.id r) (with_id-IsMessage m r v w) in
      let got : parse req.body ≡ ok m = ap parse body ∙ parse-packed m wire v packed in
      let sent : serve_questions exchange upstream m m.questions ≡ ok (success back) =
        ap (serve_questions exchange upstream m) asked ∙ questions-success q qs back p in
      (
        back,
        rw yes_post (
            ap (λ x. response_of (do msg ← x; serve_questions exchange upstream msg msg.questions))
              got
            ∙ ap response_of sent),
        parsed,
      )

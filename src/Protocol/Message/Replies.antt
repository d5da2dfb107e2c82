-- ===== src/Protocol/Message/Replies.antt =====
-- `createReply` and `createError` of dns_protocol.cpp: which flags of the query they keep.
use dnss_cpp.Common.{
  ℕ, ◌+◌, ◌*◌, ◌/◌, ◌%◌, ◌^◌, ◌<◌, ◌≡◌, refl, ap, ◌∙◌, Bool, true, false, not, ◌&&◌, ◌==◌, ==_iff,
  [], arith, bit_and, bit_or, ltb,
}
use native.Mathlib.Nat.{mod-eq_of_lt}
use dnss_cpp.Common.Bits.{bit_and-low_nibble, bit_or-shifted}
use dnss_cpp.Common.Bytes.{IsU16, holds_bytes, holds_bytes_at}
use dnss_cpp.Protocol.Header.{
  DnsHeader, qr, opcode, aa, tc, rd, ra, rcode, set_qr, set_ra, set_rcode, zero_header,
}
use dnss_cpp.Protocol.Message.{DnsMessage, create_reply, create_error}

-- A header with this flag word; the accessors read nothing else.
abbrev word : ℕ → DnsHeader
word f = record zero_header { flags = f }

abbrev agree : Bool → Bool → Bool
agree true b = b
agree false b = not b

agree-eq : (a b : Bool) → agree a b ≡ true → a ≡ b
agree-eq a b h = ground arith

-- Everything but QR, RA and the response code.
abbrev same_flags : DnsHeader → DnsHeader → Bool
same_flags h k =
    (opcode h == opcode k) && (agree (aa h) (aa k) && (agree (tc h) (tc k) && agree (rd h) (rd k)))

abbrev reply_word : ℕ → DnsHeader
reply_word f = set_ra true (set_qr true (word f))

reply_test : ℕ → Bool
reply_test f =
    (qr (reply_word f) && ra (reply_word f))
    && (((rcode (reply_word f) == rcode (word f)) && same_flags (reply_word f) (word f))
        && ltb (reply_word f).flags 65536)

reply_table : holds_bytes (λ a b. reply_test (a * 256 + b)) ≡ true
unfolding holds_bytes reply_test set_ra set_qr qr ra rcode opcode aa tc rd
reply_table = refl

-- A response to the query whose header is `h`.
pub record Responds (h k : DnsHeader) : Type 0 where
  pub same_id : k.id ≡ h.id
  pub is_response : qr k ≡ true
  pub recursion_available : ra k ≡ true
  pub same_opcode : opcode k ≡ opcode h
  pub same_aa : aa k ≡ aa h
  pub same_tc : tc k ≡ tc h
  pub same_rd : rd k ≡ rd h

-- No record in any section, and the counts say so.
pub record IsBare (query m : DnsMessage) : Type 0 where
  pub same_questions : m.questions ≡ query.questions
  pub same_qdcount : m.header.qdcount ≡ query.header.qdcount
  pub no_answers : (m.answers ≡ []) × (m.header.ancount ≡ 0)
  pub no_authorities : (m.authorities ≡ []) × (m.header.nscount ≡ 0)
  pub no_additionals : (m.additionals ≡ []) × (m.header.arcount ≡ 0)

test_at : (f : ℕ) → IsU16 f → reply_test f ≡ true
test_at f h = rw (split f) at (
    holds_bytes_at (λ a b. reply_test (a * 256 + b)) (f / 256) (f % 256) reply_table (omega arith)
      (omega arith))
  where
    split : (f : ℕ) → f / 256 * 256 + f % 256 ≡ f
    split f = omega arith

-- What the test says of the flag word of a reply.
abbrev Replied : ℕ → Type 0
Replied f =
    (qr (reply_word f) ≡ true)
    × (ra (reply_word f) ≡ true)
    × (rcode (reply_word f) ≡ rcode (word f))
    × (opcode (reply_word f) ≡ opcode (word f))
    × (aa (reply_word f) ≡ aa (word f))
    × (tc (reply_word f) ≡ tc (word f))
    × (rd (reply_word f) ≡ rd (word f))
    × ((reply_word f).flags < 65536)

test-Replied : (f : ℕ) → reply_test f ≡ true → Replied f
unfolding reply_test
test-Replied f h = ground arith

-- `setRcode` on 16 bits.
clear_table : holds_bytes (λ a b. bit_and (a * 256 + b) 0xFFF0 == (a * 256 + b) / 16 * 16) ≡ true
unfolding holds_bytes
clear_table = refl

clear_nibble : (f : ℕ) → IsU16 f → bit_and f 0xFFF0 ≡ f / 16 * 2 ^ 4
clear_nibble f h = (==_iff _ _).0 (
    rw (pair f) at (
      holds_bytes_at (λ a b. bit_and (a * 256 + b) 0xFFF0 == (a * 256 + b) / 16 * 16) (f / 256)
        (f % 256) clear_table (omega arith) (omega arith)))
  where
    pair : (f : ℕ) → f / 256 * 256 + f % 256 ≡ f
    pair f = omega arith

set_rcode-flags :
    (c : ℕ) (h : DnsHeader) → IsU16 h.flags → c < 16 → (set_rcode c h).flags ≡ h.flags / 16 * 16 + c
unfolding set_rcode
set_rcode-flags c h k l = omega (
  arith,
  ap (λ (t : ℕ). bit_or t (bit_and c 0xF)) (clear_nibble h.flags k),
  ap (bit_or (h.flags / 16 * 2 ^ 4)) (bit_and-low_nibble c ∙ mod-eq_of_lt l),
  bit_or-shifted 4 (h.flags / 16) c l,
)

module _ (c : ℕ) (h : DnsHeader) (fits : IsU16 h.flags) (small : c < 16) where
  rcode-set_rcode : rcode (set_rcode c h) ≡ c
  unfolding rcode
  rcode-set_rcode =
      omega (arith, bit_and-low_nibble (set_rcode c h).flags, set_rcode-flags c h fits small)

  set_rcode-keeps :
      (qr (set_rcode c h) ≡ qr h)
      × (ra (set_rcode c h) ≡ ra h)
      × (opcode (set_rcode c h) ≡ opcode h)
      × (aa (set_rcode c h) ≡ aa h)
      × (tc (set_rcode c h) ≡ tc h)
      × (rd (set_rcode c h) ≡ rd h)
  unfolding qr ra opcode aa tc rd
  set_rcode-keeps = (
    ap (λ (t : ℕ). not (bit_and t 1 == 0)) (omega (arith, set_rcode-flags c h fits small)),
    ap (λ (t : ℕ). not (bit_and t 1 == 0)) (omega (arith, set_rcode-flags c h fits small)),
    ap (λ (t : ℕ). bit_and t 0xF) (omega (arith, set_rcode-flags c h fits small)),
    ap (λ (t : ℕ). not (bit_and t 1 == 0)) (omega (arith, set_rcode-flags c h fits small)),
    ap (λ (t : ℕ). not (bit_and t 1 == 0)) (omega (arith, set_rcode-flags c h fits small)),
    ap (λ (t : ℕ). not (bit_and t 1 == 0)) (omega (arith, set_rcode-flags c h fits small)),
  )

module _ (query : DnsMessage) (fits : IsU16 query.header.flags) where
  facts : Replied query.header.flags
  facts = test-Replied query.header.flags (test_at query.header.flags fits)

  -- For a query whose flags fit in 16 bits, a reply has the query's identifier, opcode, flags AA, TC
  -- and RD, response code and questions, is marked as a response with recursion available, and has
  -- no records.
  pub create_reply-Responds :
      Responds query.header (create_reply query).header
      × (rcode (create_reply query).header ≡ rcode query.header)
      × IsBare query (create_reply query)
  unfolding create_reply set_ra set_qr qr ra rcode opcode aa tc rd
  create_reply-Responds =
      let (a, b, c, d, e, f, g, k) = facts in
      (
        record {
          same_id = refl;
          is_response = a;
          recursion_available = b;
          same_opcode = d;
          same_aa = e;
          same_tc = f;
          same_rd = g;
        },
        c,
        record {
          same_questions = refl;
          same_qdcount = refl;
          no_answers = (refl, refl);
          no_authorities = (refl, refl);
          no_additionals = (refl, refl);
        },
      )

  reply-IsU16 : IsU16 (create_reply query).header.flags
  unfolding create_reply set_ra set_qr
  reply-IsU16 = facts.7

  create_error-IsBare : (code : ℕ) → IsBare query (create_error query code)
  unfolding create_error set_rcode set_ra set_qr
  create_error-IsBare code = record {
    same_questions = refl;
    same_qdcount = refl;
    no_answers = (refl, refl);
    no_authorities = (refl, refl);
    no_additionals = (refl, refl);
  }

  -- For a query whose flags fit in 16 bits and a code below 16, an error has the query's identifier,
  -- opcode, flags AA, TC and RD and questions, is marked as a response with recursion available, has
  -- the code as its response code, and has no records.
  pub create_error-Responds :
      (code : ℕ)
      → code < 16
      → Responds query.header (create_error query code).header
        × (rcode (create_error query code).header ≡ code)
        × IsBare query (create_error query code)
  unfolding create_error
  create_error-Responds code h =
      let (r, c, bare) = create_reply-Responds in
      let (a, b, d, e, f, g) = set_rcode-keeps code (create_reply query).header reply-IsU16 h in
      (
        record {
          same_id = unfold set_rcode in r.same_id;
          is_response = a ∙ r.is_response;
          recursion_available = b ∙ r.recursion_available;
          same_opcode = d ∙ r.same_opcode;
          same_aa = e ∙ r.same_aa;
          same_tc = f ∙ r.same_tc;
          same_rd = g ∙ r.same_rd;
        },
        rcode-set_rcode code (create_reply query).header reply-IsU16 h,
        create_error-IsBare code,
      )

-- ===== src/Protocol/Runs.antt =====
-- Runs of the protocol code on messages and buffers written out, and the theorems at them.
use dnss_cpp.Common.{
  ℕ, zero, suc, ◌+◌, ◌<◌, ◌≡◌, ◌↔◌, inl, refl, true, List, [], ◌∷◌, arith, All, ok, throw,
  out_of_bounds, pointer_cycle, Ensures, Ends,
}
use dnss_cpp.Common.Bytes.{IsByte}
use dnss_cpp.Protocol.Header.{DnsHeader}
use dnss_cpp.Protocol.Message.{DnsMessage, DnsQuestion, DnsResourceRecord}
use dnss_cpp.Protocol.Message.WellFormed.{IsMessage, IsRr, plain, name, IsName}
use dnss_cpp.Protocol.Buffer.{read, read_range}
use dnss_cpp.Protocol.Name.{
  wire_to_name, name_to_wire, scan, scan_step, on_length, read_label, follow_pointer, end_of_name,
  add_label, is_root,
}
use dnss_cpp.Protocol.Name.Bounds.{Placed, wire_to_name-Placed}
use dnss_cpp.Protocol.Name.Grammar.{NameAt}
use dnss_cpp.Protocol.Name.Sound.{wire_to_name_iff}
use dnss_cpp.Protocol.Name.Labels.{IsLabel, join, wire_labels, add_labels}
use dnss_cpp.Protocol.NameEquals.{name_equals, name_equals_simd, bytes_equal, ci_eq, fold_case}
use dnss_cpp.Protocol.NameEquals.Agree.{name_equals_simd-eq}
use dnss_cpp.Protocol.Parse.{parse, soa_rdata}
use dnss_cpp.Protocol.Parse.Safety.{parse-Ends, soa_rdata_overread}
use dnss_cpp.Protocol.Pack.{pack}
use dnss_cpp.Protocol.Pack.RoundTrip.{parse-pack}

abbrev ab : List ℕ
ab = b'a' ∷ b'b' ∷ []

-- `ab.c`, as labels and as text.
abbrev labels : List (List ℕ)
labels = ab ∷ (b'c' ∷ []) ∷ []

abbrev text : List ℕ
text = b'a' ∷ b'b' ∷ b'.' ∷ b'c' ∷ []

labels-IsLabel : All IsLabel labels
labels-IsLabel = (
  (omega arith, omega arith, ((λ e. absurd (omega arith)), ((λ e. absurd (omega arith)), tt))),
  ((omega arith, omega arith, ((λ e. absurd (omega arith)), tt)), tt),
)

text-IsName : IsName text
text-IsName = (labels, labels-IsLabel, unfold join in refl)

abbrev header : DnsHeader
header = record { id = 7; flags = 0x8180; qdcount = 1; ancount = 2; nscount = 0; arcount = 0 }

abbrev pub question : DnsQuestion
question = record { qname = text; qtype = 1; qclass = 1 }

-- An address, and an alias whose data is a name.
abbrev address : DnsResourceRecord
address = record { name = text; type = 1; rclass = 1; ttl = 300; rdata = 10 ∷ 0 ∷ 0 ∷ 1 ∷ [] }

abbrev alias : DnsResourceRecord
alias = record {
  name = text;
  type = 5;
  rclass = 1;
  ttl = 60;
  rdata = 2 ∷ b'a' ∷ b'b' ∷ 1 ∷ b'c' ∷ 0 ∷ [];
}

abbrev pub message : DnsMessage
message = record {
  header = header;
  questions = question ∷ [];
  answers = address ∷ alias ∷ [];
  authorities = [];
  additionals = [];
}

address-IsRr : IsRr address
address-IsRr = record {
  named = text-IsName;
  type_fits = omega arith;
  class_fits = omega arith;
  ttl_fits = omega arith;
  size_fits = omega arith;
  contents =
      plain (λ e. absurd (omega arith)) (λ e. absurd (omega arith)) (λ e. absurd (omega arith))
        (λ e. absurd (omega arith)) (λ e. absurd (omega arith));
}

alias-IsRr : IsRr alias
alias-IsRr = record {
  named = text-IsName;
  type_fits = omega arith;
  class_fits = omega arith;
  ttl_fits = omega arith;
  size_fits = omega arith;
  contents = name labels (inl refl) labels-IsLabel (unfold wire_labels in refl);
}

pub message-IsMessage : IsMessage message
message-IsMessage = record {
  id_fits = omega arith;
  flags_fit = omega arith;
  qdcount = refl;
  ancount = refl;
  nscount = refl;
  arcount = refl;
  questions_fit = omega arith;
  answers_fit = omega arith;
  authorities_fit = omega arith;
  additionals_fit = omega arith;
  questions =
      (record { named = text-IsName; type_fits = omega arith; class_fits = omega arith }, tt);
  answers = (address-IsRr, (alias-IsRr, tt));
  authorities = tt;
  additionals = tt;
}

parse-pack_example : (buf : List ℕ) × (pack message ≡ ok buf) × (parse buf ≡ ok message)
parse-pack_example = parse-pack message message-IsMessage

packed : (buf : List ℕ) × (pack message ≡ ok buf) × (parse buf ≡ ok message)
packed = parse-pack message message-IsMessage

-- `ab.c` at 0, and `x` before a pointer to it at 6.
abbrev pointers : List ℕ
pointers = 2 ∷ b'a' ∷ b'b' ∷ 1 ∷ b'c' ∷ 0 ∷ 1 ∷ b'x' ∷ 0xC0 ∷ 0 ∷ []

abbrev long_text : List ℕ
long_text = b'x' ∷ b'.' ∷ text

wire_to_name_iff_example :
    (wire_to_name pointers 6 ≡ ok (long_text, 10))
    ↔ ((ls : List (List ℕ)) × NameAt pointers 10 6 ls 10 × (long_text ≡ add_labels [] ls))
wire_to_name_iff_example = wire_to_name_iff pointers 6 long_text 10

name_read : wire_to_name pointers 6 ≡ ok (long_text, 10)
unfolding wire_to_name scan scan_step read on_length read_label read_range follow_pointer
    end_of_name add_label
name_read = refl

-- A pointer to itself is followed ten times.
cycle_found : wire_to_name (0xC0 ∷ 0 ∷ []) 0 ≡ throw pointer_cycle
unfolding wire_to_name scan scan_step read on_length follow_pointer
cycle_found = refl

wire_to_name-Placed_example : Ensures (Placed pointers 6) (wire_to_name pointers 6)
wire_to_name-Placed_example = wire_to_name-Placed pointers 6

parse-Ends_example : Ends (parse pointers)
parse-Ends_example = parse-Ends pointers

-- Two root names and the numbers, whose length says 1.
abbrev short_soa : List ℕ
short_soa = 0 ∷ 0 ∷ 1 ∷ 2 ∷ []

root_read : (p : ℕ) → p < 2 → wire_to_name short_soa p ≡ ok ([], p + 1)
unfolding wire_to_name scan scan_step read on_length end_of_name
root_read zero h = refl
root_read (suc zero) h = refl
root_read (suc (suc p)) h = absurd (omega arith)

root_written : name_to_wire [] ≡ ok (0 ∷ [])
unfolding name_to_wire is_root
root_written = refl

soa_rdata_overread_example : soa_rdata short_soa 0 1 ≡ out_of_bounds
soa_rdata_overread_example =
    soa_rdata_overread short_soa 0 1 1 2 [] [] (0 ∷ []) (0 ∷ []) (omega arith)
      (root_read 0 (omega arith)) (root_read 1 (omega arith)) root_written root_written
      (omega arith) (omega arith)

-- `aB.c` and `Ab.c`.
abbrev mixed : List ℕ
mixed = b'a' ∷ b'B' ∷ b'.' ∷ b'c' ∷ []

text-IsByte : All IsByte text
text-IsByte = (omega arith, (omega arith, (omega arith, (omega arith, tt))))

mixed-IsByte : All IsByte mixed
mixed-IsByte = (omega arith, (omega arith, (omega arith, (omega arith, tt))))

name_equals_simd-eq_example : name_equals_simd text mixed ≡ name_equals text mixed
name_equals_simd-eq_example = name_equals_simd-eq text mixed text-IsByte mixed-IsByte

equal_read : name_equals text mixed ≡ true
unfolding name_equals bytes_equal ci_eq fold_case
equal_read = refl

-- ===== src/Protocol/Pack/Safety.antt =====
-- `pack` of dns_protocol.cpp on any message.
use dnss_cpp.Common.{ℕ, ◌+◌, List, [], ◌∷◌, Result, ◌>>=◌, Answers, Ensures->>=, Ensures-Answers}
use dnss_cpp.Protocol.Message.{DnsMessage, DnsQuestion, DnsResourceRecord}
use dnss_cpp.Protocol.Name.{name_to_wire}
use dnss_cpp.Protocol.Name.Emit.{name_to_wire-size}
use dnss_cpp.Protocol.Pack.{
  pack_question, pack_rr, pack_entries, question_size, rr_size, add_sizes, packed_size, pack,
}

name_to_wire-Answers : (name : List ℕ) → Answers (name_to_wire name)
name_to_wire-Answers name = Ensures-Answers _ (name_to_wire name) (name_to_wire-size name)

Answers->>= {ℓ κ} :
    {A : Type ℓ} {B : Type κ} (m : Result A) (f : A → Result B)
    → Answers m
    → ((a : A) → Answers (f a))
    → Answers (m >>= f)
Answers->>= m f h k = Ensures->>= (λ _. Unit {0}) (λ _. Unit {0}) m f h (λ a _. k a)

module _ {A : Type 0} where
  add_sizes-Answers :
      (size : A → Result ℕ) (total : ℕ) (xs : List A)
      → ((x : A) → Answers (size x))
      → Answers (add_sizes size total xs)
  unfolding add_sizes
  add_sizes-Answers size total [] h = tt
  add_sizes-Answers size total (x ∷ xs) h =
      Answers->>= (size x) _ (h x) (λ n. add_sizes-Answers size (total + n) xs h)

  pack_entries-Answers :
      (entry : A → Result (List ℕ)) (xs : List A)
      → ((x : A) → Answers (entry x))
      → Answers (pack_entries entry xs)
  unfolding pack_entries
  pack_entries-Answers entry [] h = tt
  pack_entries-Answers entry (x ∷ xs) h = Answers->>= (entry x) _ (h x) (λ bytes.
      Answers->>= (pack_entries entry xs) _ (pack_entries-Answers entry xs h) (λ rest. tt))

question_size-Answers : (q : DnsQuestion) → Answers (question_size q)
unfolding question_size
question_size-Answers q =
    Answers->>= (name_to_wire q.qname) _ (name_to_wire-Answers q.qname) (λ w. tt)

rr_size-Answers : (rr : DnsResourceRecord) → Answers (rr_size rr)
unfolding rr_size
rr_size-Answers rr = Answers->>= (name_to_wire rr.name) _ (name_to_wire-Answers rr.name) (λ w. tt)

pack_question-Answers : (q : DnsQuestion) → Answers (pack_question q)
unfolding pack_question
pack_question-Answers q =
    Answers->>= (name_to_wire q.qname) _ (name_to_wire-Answers q.qname) (λ w. tt)

pack_rr-Answers : (rr : DnsResourceRecord) → Answers (pack_rr rr)
unfolding pack_rr
pack_rr-Answers rr = Answers->>= (name_to_wire rr.name) _ (name_to_wire-Answers rr.name) (λ w. tt)

packed_size-Answers : (m : DnsMessage) → Answers (packed_size m)
unfolding packed_size
packed_size-Answers m =
    Answers->>= _ _ (add_sizes-Answers question_size 12 m.questions question_size-Answers) λ a.
      Answers->>= _ _ (add_sizes-Answers rr_size a m.answers rr_size-Answers) λ b.
        Answers->>= _ _ (add_sizes-Answers rr_size b m.authorities rr_size-Answers)
          λ c. add_sizes-Answers rr_size c m.additionals rr_size-Answers

-- `pack` throws or returns on every message: its loops end within their fuel.
pub pack-Answers : (m : DnsMessage) → Answers (pack m)
unfolding pack
pack-Answers m = Answers->>= _ _ (packed_size-Answers m) λ size.
    Answers->>= _ _ (pack_entries-Answers pack_question m.questions pack_question-Answers) λ a.
      Answers->>= _ _ (pack_entries-Answers pack_rr m.answers pack_rr-Answers) λ b.
        Answers->>= _ _ (pack_entries-Answers pack_rr m.authorities pack_rr-Answers)
          λ c. Answers->>= _ _ (pack_entries-Answers pack_rr m.additionals pack_rr-Answers) λ d. tt

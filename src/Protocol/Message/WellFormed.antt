-- ===== src/Protocol/Message/WellFormed.antt =====
-- Messages that have a form on the wire: DnsMessage of dns_protocol.hpp with its numbers in range,
-- names of labels, and record data in the uncompressed form that `parse` stores.
use dnss_cpp.Common.{ℕ, ◌≡◌, ◌≢◌, ◌⊎◌, List, ◌++◌, length, All}
use dnss_cpp.Common.Bytes.{IsU16, IsU32}
use dnss_cpp.Protocol.Words.{write_u16}
use dnss_cpp.Protocol.Name.Labels.{IsLabel, join, wire_labels}
use dnss_cpp.Protocol.Message.{
  DnsQuestion, DnsResourceRecord, DnsMessage, type_ns, type_cname, type_soa, type_ptr, type_mx,
}

abbrev pub IsName : List ℕ → Type 0
IsName name = (ls : List (List ℕ)) × All IsLabel ls × (name ≡ join ls)

pub record IsQuestion (q : DnsQuestion) : Type 0 where
  pub named : IsName q.qname
  pub type_fits : IsU16 q.qtype
  pub class_fits : IsU16 q.qclass

abbrev pub HoldsName : ℕ → Type 0
HoldsName type = (type ≡ type_cname) ⊎ (type ≡ type_ns) ⊎ (type ≡ type_ptr)

-- Data without names, a name, a preference and a name, or two names and five 32 bit numbers.
pub data IsRdata (type : ℕ) (rdata : List ℕ) : Type 0 where
  plain :
      type ≢ type_cname
      → type ≢ type_ns
      → type ≢ type_ptr
      → type ≢ type_mx
      → type ≢ type_soa
      → IsRdata type rdata
  name :
      (ls : List (List ℕ))
      → HoldsName type
      → All IsLabel ls
      → rdata ≡ wire_labels ls
      → IsRdata type rdata
  mail :
      (pref : ℕ) (ls : List (List ℕ))
      → type ≡ type_mx
      → IsU16 pref
      → All IsLabel ls
      → rdata ≡ write_u16 pref ++ wire_labels ls
      → IsRdata type rdata
  authority :
      (ms rs : List (List ℕ)) (tail : List ℕ)
      → type ≡ type_soa
      → All IsLabel ms
      → All IsLabel rs
      → length tail ≡ 20
      → rdata ≡ wire_labels ms ++ (wire_labels rs ++ tail)
      → IsRdata type rdata

pub record IsRr (rr : DnsResourceRecord) : Type 0 where
  pub named : IsName rr.name
  pub type_fits : IsU16 rr.type
  pub class_fits : IsU16 rr.rclass
  pub ttl_fits : IsU32 rr.ttl
  pub size_fits : IsU16 (length rr.rdata)
  pub contents : IsRdata rr.type rr.rdata

-- The counts of the header are those of the sections.
pub record IsMessage (m : DnsMessage) : Type 0 where
  pub id_fits : IsU16 m.header.id
  pub flags_fit : IsU16 m.header.flags
  pub qdcount : m.header.qdcount ≡ length m.questions
  pub ancount : m.header.ancount ≡ length m.answers
  pub nscount : m.header.nscount ≡ length m.authorities
  pub arcount : m.header.arcount ≡ length m.additionals
  pub questions_fit : IsU16 (length m.questions)
  pub answers_fit : IsU16 (length m.answers)
  pub authorities_fit : IsU16 (length m.authorities)
  pub additionals_fit : IsU16 (length m.additionals)
  pub questions : All IsQuestion m.questions
  pub answers : All IsRr m.answers
  pub authorities : All IsRr m.authorities
  pub additionals : All IsRr m.additionals

-- ===== src/Protocol/Message.antt =====
-- DnsMessage of dns_protocol.hpp and dns_protocol.cpp: the data and the constructors of
-- queries and replies. Pointers are values here: a `copy` shares nothing.
pub mod WellFormed
pub mod Replies
use dnss_cpp.Common.{ℕ, List, [], ◌∷◌, true}
use dnss_cpp.Protocol.Header.{DnsHeader, zero_header, set_qr, set_ra, set_rd, set_rcode}

pub record DnsQuestion : Type 0 where
  pub qname : List ℕ
  pub qtype : ℕ
  pub qclass : ℕ

pub record DnsResourceRecord : Type 0 where
  pub name : List ℕ
  pub type : ℕ
  pub rclass : ℕ
  pub ttl : ℕ
  pub rdata : List ℕ

pub record DnsMessage : Type 0 where
  pub header : DnsHeader
  pub questions : List DnsQuestion
  pub answers : List DnsResourceRecord
  pub authorities : List DnsResourceRecord
  pub additionals : List DnsResourceRecord

-- DnsType and DnsRcode.
abbrev pub type_a : ℕ
type_a = 1

abbrev pub type_ns : ℕ
type_ns = 2

abbrev pub type_cname : ℕ
type_cname = 5

abbrev pub type_soa : ℕ
type_soa = 6

abbrev pub type_ptr : ℕ
type_ptr = 12

abbrev pub type_mx : ℕ
type_mx = 15

abbrev pub type_aaaa : ℕ
type_aaaa = 28

abbrev pub no_error : ℕ
no_error = 0

abbrev pub form_err : ℕ
form_err = 1

abbrev pub serv_fail : ℕ
serv_fail = 2

abbrev pub nx_domain : ℕ
nx_domain = 3

abbrev pub refused : ℕ
refused = 5

unfoldable pub create_query : List ℕ → ℕ → ℕ → DnsMessage
create_query name qtype qclass = record {
  header = record (set_rd true zero_header) { qdcount = 1 };
  questions = record { qname = name; qtype = qtype; qclass = qclass } ∷ [];
  answers = [];
  authorities = [];
  additionals = [];
}

unfoldable pub create_reply : DnsMessage → DnsMessage
create_reply query = record {
  header = record (set_ra true (set_qr true query.header)) {
    ancount = 0;
    nscount = 0;
    arcount = 0;
  };
  questions = query.questions;
  answers = [];
  authorities = [];
  additionals = [];
}

unfoldable pub create_error : DnsMessage → ℕ → DnsMessage
unfolding create_reply
create_error query code =
    let msg = create_reply query in record msg { header = set_rcode code msg.header }

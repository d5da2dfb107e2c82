-- ===== src/Protocol.antt =====
-- dns_protocol.hpp and dns_protocol.cpp: the DNS message format.
pub mod Buffer
pub mod Name
pub mod NameEquals
pub mod Header
pub mod Words
pub mod Message
pub mod Parse
pub mod Pack
pub mod Runs

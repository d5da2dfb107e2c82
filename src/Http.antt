-- ===== src/Http.antt =====
-- http_resolver.hpp and http_resolver.cpp: addresses and proxies, the pools of connections, and the
-- reading of an answer over HTTP. Sockets and TLS are left out; what they do is an argument.
pub mod Url
pub mod Response
pub mod Pool
pub mod Post
pub mod Runs

-- ===== src/Server.antt =====
-- dns_server.cpp: what the server does with a request, the pool of its workers, and the limit of
-- requests for each client.
pub mod RateLimiter
pub mod ThreadPool
pub mod HandleQuery
pub mod Worker
pub mod Receive
pub mod Tcp
pub mod Resize
pub mod Runs

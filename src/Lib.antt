-- ===== src/Lib.antt =====
-- A verification library of dnss, a DNS proxy in C++ that answers from a cache of two levels and
-- asks upstream resolvers for the rest. Paths are from the root of the repository.
--
-- Parts, and how they interact. The server reads a message (src/dns_protocol.*), looks up an
-- override for its name (src/domain_map.*), and asks the caching resolver (src/caching_resolver.*),
-- which asks an upstream resolver where neither cache has an answer, and counts what it does in
-- src/perf_monitor.*. Two upstreams are there, over HTTPS (src/http_resolver.*, whose connections
-- src/connection_controller.* keeps open) and of the system (src/system_resolver.*); main.cpp
-- starts the latter. The tuner (src/auto_tuner.*) changes the sizes of pools and the times to live
-- as the load asks.
--
-- Common holds what the parts share: tests on numbers, lists over the native numbers, bits, bytes,
-- texts as lists of bytes and the search in them, and Results, the outcome of C++ code: a value, an
-- exception, a read out of bounds, or a loop that has used up its fuel.
--
-- Protocol is src/dns_protocol.hpp and src/dns_protocol.cpp. A buffer is the list of its bytes, a
-- pointer into it a position, and Buffer reads with the C++ meaning: out of the buffer is out of
-- bounds. Header has the flag word, Message the records and createQuery, createReply and
-- createError, Words readU16, readU32 and their writers, Name wireToName and nameToWire, NameEquals
-- the two versions of nameEquals, Parse and Pack the methods parse and pack. The three loops over
-- sections of records in `parse` are the same text, and are one function here, as are those of
-- `pack`. The children of each state what it does: Name/Grammar has the names on the wire as a data
-- type (with labels of up to 191 bytes, as the code takes them), Message/WellFormed the messages
-- that have a form on the wire.
--
-- DomainMap is src/domain_map.cpp: `std::map` is a list of entries in the order of the keys.
--
-- Perf has the counters of src/perf_monitor.cpp that the cache uses.
--
-- Cache is src/caching_resolver.cpp: the record Cache has the members of CachingResolver, Policy
-- decides what is cached and for how long (shouldCache, computeCacheTTL, clobberTTL,
-- buildCachedReply), Turbo is the direct-mapped cache of 4096 slots (turboLookup, turboInsert),
-- Store the map `cache_` with its eviction and gcCache, and Query has `query` and refreshEntry. The
-- upstream is a function from a request and a flag to a reply, to nothing or to an exception, the
-- tuner's decisions are arguments, and so are the times at which the code reads the clock: `now`
-- for the lookups and `done` after the upstream answered. Time is in nanoseconds.
--
-- Cache/Peek has peekCache and peekCacheRaw, the lookups that the server makes itself, and
-- Cache/Disk the file of saveCache and loadCache.
--
-- Latency is src/latency_manager.cpp: the urgency and the boosts, from the comparisons that the
-- code makes on its floating point numbers.
--
-- Server is src/dns_server.cpp: RateLimiter, ThreadPool as a step relation on its counts and its
-- queue, in which a step is what is done under its mutex at once, or without it, HandleQuery with handleQuery
-- and udpQueryRaw, and Worker with one round of udpWorker, which is where the rate limiter, the raw
-- lookup, the pool and the resolver meet. Server/Receive is onUdpReceive, Server/Tcp the
-- connections over TCP from the accept to the job in the pool, and Server/Resize a round of
-- perfMonitorLoop. The sockets are the function `exchange` from a host, a port and a request to the
-- bytes of an answer, and the resolver behind handleQuery is a function on a state of its own.
--
-- Http is src/http_resolver.cpp, an upstream resolver: Url has parseUrl, parseProxyUrl,
-- matchesNoProxy and the detection of a proxy, Response the reading of an answer from the chunks in
-- which it arrives, with the memory behind it where the length of the body is not that received,
-- Pool the pools of connections with getNextConnection and maintain, and Post the loop of doPost
-- that opens connections again.
--
-- System is src/system_resolver.cpp, the other upstream: the order in which getaddrinfo, UDP and
-- HTTPS are asked, behind the functions of the record Network, and the rounds of the probe.
--
-- Connections is src/connection_controller.cpp, which keeps the connections of the pools open: the
-- record Controller has the managed connections and the work of reconnecting them, Rounds the
-- rounds of run and probeAllIdle, and the parts of a round of run between which its mutex is free,
-- Reach the relation of the calls and of these parts.
--
-- Tuner is src/auto_tuner.cpp: tuneAll with what it decides for the pool, the connections and the
-- times to live, from the comparisons that the code makes on its floating point numbers.
--
-- Https is the handler of src/https_server.cpp, which puts a message that comes by POST before a
-- resolver.
--
-- Options is the reading of the options in src/main.cpp, from the file and from the command line.
--
-- Bounds and fuel. wireToName runs on 11 rounds for each byte of the buffer and 11 more: at most
-- ten pointers are followed, and between two of them each round moves forward. nameToWire runs on
-- one round more than the text has bytes, and the loop of peekCacheRaw on one more than the request
-- has. The loop of parseJson runs on one round more than the file has bytes. All four are proved to
-- be enough. Numbers of 16, 32 and 64 bits wrap round where the code lets them; the counters, which
-- are 64 bit and only count up, do not.
--
-- Not modelled: sockets, TLS, libcurl, threads and locks (a step is an operation, or a part of one
-- where the code gives up its lock), log lines, the text forms toString and rdataToString, floating
-- point statistics and filters, and the parts monitor_server and logger, which are input and
-- output. Of main.cpp only the options are here.

pub mod Common
pub mod Protocol
pub mod DomainMap
pub mod Perf
pub mod Cache
pub mod Connections
pub mod Http
pub mod Https
pub mod Latency
pub mod Options
pub mod Server
pub mod System
pub mod Tuner

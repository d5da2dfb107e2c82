-- ===== src/Server/RateLimiter.antt =====
-- `RateLimiter` of dns_server.cpp: at most 100 requests in a second for each client. A shard's mutex
-- makes each call one step. Time is in nanoseconds, and a new entry has the time 0 of the clock.
pub mod Window
use dnss_cpp.Common.{
  ℕ, ◌+◌, ◌-◌, ◌*◌, ◌%◌, ◌^◌, Bool, true, false, ◌||◌, List, [], ◌∷◌, ltb, ◌==◌, if◌then◌else◌,
  bit_and, bit_xor,
}
use dnss_cpp.Common.Text.{text_eq}
use dnss_cpp.Cache.{hash_name, second}
use dnss_cpp.Cache.Turbo.{update}

pub record Entry : Type 0 where
  pub last : ℕ
  pub count : ℕ

abbrev pub new_entry : Entry
new_entry = record { last = 0; count = 0 }

abbrev pub Clients : Type 0
Clients = List (List ℕ × Entry)

-- The 16 shards.
abbrev pub Shards : Type 0
Shards = ℕ → Clients

-- `s.clients[ip]`, which makes an entry where there is none.
unfoldable pub entry_of : List ℕ → Clients → Entry
entry_of ip [] = new_entry
entry_of ip ((k, e) ∷ rest) = if text_eq ip k then e else entry_of ip rest

unfoldable pub write_entry : List ℕ → Entry → Clients → Clients
write_entry ip entry [] = (ip, entry) ∷ []
write_entry ip entry ((k, e) ∷ rest) =
    let more = write_entry ip entry rest in
    if text_eq ip k then (k, entry) ∷ rest else (k, e) ∷ more

-- `if (now - entry.last > 1s) { count = 0; last = now; } ++count`
unfoldable pub counted : ℕ → Entry → Entry
counted now e =
    if ltb second (now - e.last)
    then record { last = now; count = 1 }
    else record e { count = e.count + 1 }

abbrev pub loopback : List ℕ
loopback = b'1' ∷ b'2' ∷ b'7' ∷ b'.' ∷ b'0' ∷ b'.' ∷ b'0' ∷ b'.' ∷ b'1' ∷ []

abbrev pub loopback6 : List ℕ
loopback6 = b':' ∷ b':' ∷ b'1' ∷ []

-- `fnv1a(ip) & (SHARDS - 1)`
unfoldable pub shard_of : List ℕ → ℕ
shard_of ip = bit_and (hash_name 14695981039346656037 ip) 15

unfoldable pub is_local : List ℕ → Bool
is_local ip = text_eq ip loopback || text_eq ip loopback6

unfoldable pub allow : ℕ → List ℕ → Shards → Bool × Shards
allow now ip shards =
    let s = shard_of ip in
    let e = counted now (entry_of ip (shards s)) in
    if is_local ip
    then (true, shards)
    else if ltb 100 e.count
    then (false, update shards s (write_entry ip e (shards s)))
    else (true, update shards s (write_entry ip e (shards s)))

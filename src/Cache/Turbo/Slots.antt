-- ===== src/Cache/Turbo/Slots.antt =====
-- What a lookup in the turbo cache finds after an insertion.
use dnss_cpp.Common.{ℕ, ◌≡◌, ap, none, some, arith, ◌==◌, leb, if◌then◌else◌}
use dnss_cpp.Protocol.Message.{DnsMessage}
use dnss_cpp.Cache.{Cache, CacheKey, turbo_hash}
use dnss_cpp.Cache.Turbo.{slot_of, slot_lookup, turbo_lookup, turbo_insert}

-- After an insertion for the key `j`, a lookup for a key of the same hash finds the message until it
-- expires, whether or not the key is `j`; a lookup for a key of another hash finds nothing in the
-- same slot, and what it found before in any other.
pub turbo_lookup-turbo_insert :
    (now : ℕ) (j k : CacheKey) (m : DnsMessage) (expires : ℕ) (c : Cache)
    → turbo_lookup now (turbo_hash k) (turbo_insert (turbo_hash j) m expires c) ≡ (
        if turbo_hash k == turbo_hash j
        then if leb expires now then none else some m
        else if slot_of (turbo_hash k) == slot_of (turbo_hash j)
        then none
        else turbo_lookup now (turbo_hash k) c)
unfolding turbo_lookup turbo_insert slot_lookup
turbo_lookup-turbo_insert now j k m expires c = decide_slot (turbo_hash k) (turbo_hash j)
  where
    decide_slot :
        (h i : ℕ)
        → slot_lookup now h (
            if slot_of h == slot_of i
            then record { key_hash = i; msg = some m; expires_at = expires }
            else c.turbo (slot_of h))
          ≡ (if h == i
              then if leb expires now then none else some m
              else if slot_of h == slot_of i
              then none
              else slot_lookup now h (c.turbo (slot_of h)))
    decide_slot h i = ground (arith, λ (e : h ≡ i). ap slot_of e)

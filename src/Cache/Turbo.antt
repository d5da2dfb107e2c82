-- ===== src/Cache/Turbo.antt =====
-- The L1 cache of caching_resolver.cpp: `turboLookup` and `turboInsert`. A slot's spin lock makes
-- each access to it one step.
pub mod Slots
use dnss_cpp.Common.{
  ℕ, ◌+◌, ◌<◌, Bool, true, false, not, Option, none, some, ◌==◌, leb, if◌then◌else◌, bit_and,
}
use dnss_cpp.Protocol.Message.{DnsMessage}
use dnss_cpp.Cache.{Cache, TurboSlot}

abbrev pub update {ℓ} : {A : Type ℓ} → (ℕ → A) → ℕ → A → ℕ → A
update f i a j = if j == i then a else f j

-- `h & (TURBO_SIZE - 1)`
unfoldable pub slot_of : ℕ → ℕ
slot_of h = bit_and h 4095

-- What a slot answers for a hash at a time.
unfoldable pub slot_lookup : ℕ → ℕ → TurboSlot → Option DnsMessage
slot_lookup now h slot =
    if not (slot.key_hash == h)
    then none
    else elim slot.msg [ none ↦ none | some m ↦ if leb slot.expires_at now then none else some m ]

unfoldable pub turbo_lookup : ℕ → ℕ → Cache → Option DnsMessage
turbo_lookup now h c = slot_lookup now h (c.turbo (slot_of h))

-- `turboFreq_[idx].fetch_add(1)`, which a successful lookup does.
unfoldable pub count_turbo : ℕ → Cache → Cache
count_turbo h c = record c {
  turbo_freq = update c.turbo_freq (slot_of h) (c.turbo_freq (slot_of h) + 1);
}

unfoldable pub turbo_insert : ℕ → DnsMessage → ℕ → Cache → Cache
turbo_insert h m expires c = record c {
  turbo = update c.turbo (slot_of h) (record { key_hash = h; msg = some m; expires_at = expires });
  turbo_freq = update c.turbo_freq (slot_of h) 0;
}

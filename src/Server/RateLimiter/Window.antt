-- ===== src/Server/RateLimiter/Window.antt =====
-- What the rate limiter lets through.
use dnss_cpp.Common.{
  ℕ, suc, ◌+◌, ◌-◌, ◌≤◌, min, ◌≡◌, refl, sym, ap, ◌∙◌, true, false, List, [], ◌∷◌, arith, ltb, ◌==◌,
  if◌then◌else◌, length, All, Bool-cases, inl, inr, ==_iff,
}
use dnss_cpp.Common.Text.{text_eq, text_eq_iff, text_eq_refl}
use dnss_cpp.Cache.{second}
use dnss_cpp.Cache.Turbo.{update}
use dnss_cpp.Server.RateLimiter.{
  Entry, Clients, Shards, entry_of, write_entry, counted, shard_of, is_local, allow,
}

entry_of-write_entry :
    (jp ip : List ℕ) (e : Entry) (cs : Clients)
    → entry_of jp (write_entry ip e cs) ≡ (if text_eq jp ip then e else entry_of jp cs)
unfolding entry_of write_entry
entry_of-write_entry jp ip e [] = refl
entry_of-write_entry jp ip e ((k, f) ∷ cs) =
    ground (
      arith,
      text_eq_iff jp ip,
      text_eq_iff ip k,
      text_eq_iff jp k,
      entry_of-write_entry jp ip e cs,
    )

-- What a client's entry is.
abbrev pub entry_in : List ℕ → Shards → Entry
entry_in ip shards = entry_of ip (shards (shard_of ip))

module _ (now : ℕ) (ip jp : List ℕ) (shards : Shards) where
  written :
      (e : Entry)
      → entry_in jp (update shards (shard_of ip) (write_entry ip e (shards (shard_of ip))))
        ≡ (if text_eq jp ip then e else entry_in jp shards)
  written e = shard (shard_of jp) (shard_of ip) (λ t. ap shard_of ((text_eq_iff jp ip).0 t))
    where
      shard :
          (a b : ℕ)
          → (text_eq jp ip ≡ true → a ≡ b)
          → entry_of jp (if a == b then write_entry ip e (shards b) else shards a)
            ≡ (if text_eq jp ip then e else entry_of jp (shards a))
      shard a b h = elim (Bool-cases (a == b)) [
        | inl t ↦ rw t (
            entry_of-write_entry jp ip e (shards b)
            ∙ ap (λ (n : ℕ). if text_eq jp ip then e else entry_of jp (shards n))
                (sym ((==_iff a b).0 t)))
        | inr f ↦ ground (arith, f, h)
      ]

  -- A call for a client that is not the host itself counts one request in the client's entry, from 1
  -- where its window of a second is over, and allows it exactly if the count is at most 100. The
  -- entries of all other clients stay as they were.
  pub allow-entry_in :
      is_local ip ≡ false
      → ((allow now ip shards).0
          ≡ (if ltb 100 (counted now (entry_in ip shards)).count then false else true))
        × (entry_in jp (allow now ip shards).1
            ≡ (if text_eq jp ip then counted now (entry_in ip shards) else entry_in jp shards))
  unfolding allow
  allow-entry_in h = ground (arith, written (counted now (entry_in ip shards)))

-- How many of the requests of one client, at these times, are allowed.
unfoldable pub allowed : List ℕ → List ℕ → Shards → ℕ
allowed [] ip shards = 0
allowed (now ∷ times) ip shards =
    (if (allow now ip shards).0 then 1 else 0) + allowed times ip (allow now ip shards).1

same_window :
    (now : ℕ) (e : Entry) → now ≤ e.last + second → counted now e ≡ record e { count = e.count + 1 }
unfolding counted
same_window now e h = ground arith

module _ (ip : List ℕ) (here : is_local ip ≡ false) where
  step :
      (now : ℕ) (shards : Shards) (e : Entry)
      → entry_in ip shards ≡ e
      → now ≤ e.last + second
      → ((allow now ip shards).0 ≡ (if ltb 100 (e.count + 1) then false else true))
        × (entry_in ip (allow now ip shards).1 ≡ record e { count = e.count + 1 })
  step now shards e h w =
      let (a, b) = allow-entry_in now ip ip shards here in
      let c = ap (counted now) h ∙ same_window now e w in
      (
        a ∙ ap (λ (f : Entry). if ltb 100 f.count then false else true) c,
        b
            ∙ ap (λ t. if t then counted now (entry_in ip shards) else entry_in ip shards)
                (text_eq_refl ip)
            ∙ c,
      )

  -- Of the requests of a client that is not the host itself, all within a second of the start of the
  -- client's window, exactly those are allowed that are left of 100.
  pub allowed-min :
      (times : List ℕ) (shards : Shards) (e : Entry)
      → entry_in ip shards ≡ e
      → All (λ (t : ℕ). t ≤ e.last + second) times
      → allowed times ip shards ≡ min (length times) (100 - e.count)
  unfolding allowed
  allowed-min [] shards e h v = omega arith
  allowed-min (now ∷ times) shards e h (w, ws) =
      let (a, b) = step now shards e h w in
      let rest =
        allowed-min times (allow now ip shards).1 (record e { count = e.count + 1 }) b ws in
      rw a (split _ e.count (length times) rest)
    where
      split :
          (n c k : ℕ)
          → n ≡ min k (100 - (c + 1))
          → (if (if ltb 100 (c + 1) then false else true) then 1 else 0) + n ≡ min (suc k) (100 - c)
      split n c k r = ground arith

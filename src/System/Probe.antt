-- ===== src/System/Probe.antt =====
-- `probeLoop` of system_resolver.cpp: every minute UDP is probed, and getaddrinfo again if it did not
-- work.
use dnss_cpp.Common.{
  ℕ, ◌+◌, ◌*◌, ◌/◌, ◌%◌, ◌≤◌, ◌≡◌, min, Bool, false, not, ◌&&◌, List, [], ◌∷◌, ltb, ◌==◌,
  if◌then◌else◌, arith,
}

pub record Probe : Type 0 where
  pub probe_cycles : ℕ
  pub getaddrinfo_retries : ℕ
  pub udp_works : Bool
  pub getaddrinfo_works : Bool

-- Before the loop: what the first probes found.
abbrev pub first_probe : Bool → Bool → Probe
first_probe udp getaddrinfo = record {
  probe_cycles = 0;
  getaddrinfo_retries = 0;
  udp_works = udp;
  getaddrinfo_works = getaddrinfo;
}

-- One round: whether UDP answers, and whether a lookup would find something within two seconds.
unfoldable pub probe_round : Bool → Bool → Probe → Probe
probe_round udp found p =
    let cycles = p.probe_cycles + 1 in
    if not p.getaddrinfo_works && ltb p.getaddrinfo_retries 6 && (cycles % 5 == 0)
    then record {
      probe_cycles = cycles;
      getaddrinfo_retries = p.getaddrinfo_retries + 1;
      udp_works = udp;
      getaddrinfo_works = found;
    }
    else record p { probe_cycles = cycles; udp_works = udp }

unfoldable pub probe_rounds : List (Bool × Bool) → Probe → Probe
probe_rounds [] p = p
probe_rounds ((udp, found) ∷ rounds) p = probe_rounds rounds (probe_round udp found p)

-- One retry for every five rounds, and six at most.
abbrev pub IsPaced : Probe → Type 0
IsPaced p =
    (p.getaddrinfo_retries ≤ 6)
    × (5 * p.getaddrinfo_retries ≤ p.probe_cycles)
    × (p.getaddrinfo_works ≡ false → p.getaddrinfo_retries ≡ min 6 (p.probe_cycles / 5))

probe_round-IsPaced : (udp found : Bool) (p : Probe) → IsPaced p → IsPaced (probe_round udp found p)
unfolding probe_round
probe_round-IsPaced udp found p h = ground arith

rounds-IsPaced :
    (rounds : List (Bool × Bool)) (p : Probe) → IsPaced p → IsPaced (probe_rounds rounds p)
unfolding probe_rounds
rounds-IsPaced [] p h = h
rounds-IsPaced ((udp, found) ∷ rounds) p h =
    rounds-IsPaced rounds (probe_round udp found p) (probe_round-IsPaced udp found p h)

-- In every run of the loop, getaddrinfo is tried again at most six times, and at most once for every
-- five rounds. As long as it does not work, it is tried in every fifth round until the sixth time.
pub probe_rounds-IsPaced :
    (rounds : List (Bool × Bool)) (udp getaddrinfo : Bool)
    → IsPaced (probe_rounds rounds (first_probe udp getaddrinfo))
probe_rounds-IsPaced rounds udp getaddrinfo =
    rounds-IsPaced rounds (first_probe udp getaddrinfo) (ground arith)

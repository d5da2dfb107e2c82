-- ===== src/Connections/Steps.antt =====
-- The calls that tell the controller of a use or a failure keep its invariant.
use dnss_cpp.Common.{
  ℕ, ◌+◌, ◌-◌, ◌≡◌, refl, sym, ap, ◌∙◌, true, false, some, List, [], ◌∷◌, ◌++◌, arith, ◌==◌, ==_iff,
  get_elem?, Bool-cases, Option-cases, inl, inr,
}
use dnss_cpp.Connections.{
  Managed, Work, Controller, bit, find_entry, replace, notify_used, work_of, lose, notify_failure,
  fail_check,
}
use dnss_cpp.Connections.Entries.{
  count_work, count_work-append, length-replace, find_entry-stream, count_connected-replace,
  AreDistinct-replace, find_entry-replace, find_entry-get_elem?,
}
use dnss_cpp.Connections.Invariant.{Fits, Holds, SameBut, Fits-replace, Fits-find_entry}

-- An entry is found and written, and the work changes for its stream only.
module _ (owed : List Work) (c : Controller) (s : ℕ) (old new : Managed) where
  abbrev pub work : List Work → Controller → ℕ → ℕ
  work more d t = count_work t d.reconnect_queue + count_work t d.in_flight + count_work t more

  pub written :
      (queue flight more : List Work) (connected : ℕ)
      → Holds owed c
      → find_entry s c.managed ≡ some old
      → new.stream ≡ old.stream
      → connected + bit old.connected ≡ c.connected_count + bit new.connected
      → SameBut s (work owed c) (λ t. count_work t queue + count_work t flight + count_work t more)
      → Fits (λ t. count_work t queue + count_work t flight + count_work t more) new
      → Holds more (record c {
        managed = replace s new c.managed;
        reconnect_queue = queue;
        in_flight = flight;
        connected_count = connected;
      })
  written queue flight more connected (a, b, d, f) e n k same fits =
      let stream = n ∙ find_entry-stream s old c.managed e in
      (
        omega (arith, a, k, count_connected-replace s old new c.managed e),
        b ∙ sym (length-replace s new c.managed),
        AreDistinct-replace s new c.managed stream d,
        Fits-replace s (work owed c) _ same new c.managed d fits f,
      )

pub notify_used-Holds :
    (owed : List Work) (now s : ℕ) (c : Controller)
    → Holds owed c
    → Holds owed (notify_used now s c)
unfolding notify_used
notify_used-Holds owed now s c h = elim (Option-cases (find_entry s c.managed)) [
  | inl missing ↦ rw (notify_used, missing) h
  | inr (m, e) ↦
      rw (notify_used, e)
        (written owed c s m (record m { last_use = now; failures = 0 }) c.reconnect_queue
          c.in_flight owed c.connected_count h e refl refl (λ t u. refl)
          (Fits-find_entry s _ m c.managed e h.3))
]

-- A connection that is lost is down, and has one work.
pub lose-Holds :
    (owed : List Work) (m : Managed) (c : Controller)
    → Holds owed c
    → find_entry m.stream c.managed ≡ some m
    → Holds owed (lose m c)
unfolding lose
lose-Holds owed m c h e =
    let new = record m { connected = false; reconnect_pending = true } in
    let fits = Fits-find_entry m.stream _ m c.managed e h.3 in
    let count = count_connected-replace m.stream m new c.managed e in
    let less : c.connected_count - bit m.connected + bit m.connected ≡ c.connected_count + 0 =
      ground (arith, h.0, count) in
    elim (Bool-cases m.reconnect_pending) [
      | inl pending ↦
          rw (lose, pending)
            (written owed c m.stream m new c.reconnect_queue c.in_flight owed
              (c.connected_count - bit m.connected) h e refl less (λ t u. refl)
              (ground (arith, fits, pending), (λ p. refl)))
      | inr none_yet ↦
          rw (lose, none_yet)
            (written owed c m.stream m new (c.reconnect_queue ++ (work_of m ∷ [])) c.in_flight owed
              (c.connected_count - bit m.connected) h e refl less
              (λ t u. ground (
                arith,
                u,
                ==_iff m.stream t,
                ==_iff t m.stream,
                count_work-append t c.reconnect_queue (work_of m ∷ []),
              ))
              (
                ground (
                  arith,
                  fits,
                  none_yet,
                  ==_iff m.stream m.stream,
                  count_work-append m.stream c.reconnect_queue (work_of m ∷ []),
                ),
                (λ p. refl),
              ))
    ]

pub notify_failure-Holds :
    (owed : List Work) (s : ℕ) (c : Controller) → Holds owed c → Holds owed (notify_failure s c)
unfolding notify_failure
notify_failure-Holds owed s c h = elim (Option-cases (find_entry s c.managed)) [
  | inl missing ↦ rw (notify_failure, missing) h
  | inr (m, e) ↦
      let failed = record m { failures = m.failures + 1 } in
      let stream = find_entry-stream s m c.managed e in
      let found = find_entry-replace s m failed c.managed e stream in
      rw (notify_failure, e)
        (lose-Holds owed failed (record c { managed = replace s failed c.managed })
          (written owed c s m failed c.reconnect_queue c.in_flight owed c.connected_count h e refl
            refl (λ t u. refl) (Fits-find_entry s _ m c.managed e h.3))
          (ap (λ t. find_entry t (replace s failed c.managed)) stream ∙ found))
]

pub fail_check-Holds :
    (owed : List Work) (check : ℕ × ℕ) (c : Controller)
    → Holds owed c
    → Holds owed (fail_check check c)
unfolding fail_check
fail_check-Holds owed (idx, s) c h = elim (Option-cases (get_elem? c.managed idx)) [
  | inl missing ↦ rw (fail_check, missing) h
  | inr (m, e) ↦ elim (Bool-cases (m.stream == s)) [
    | inl there ↦
        rw (fail_check, e, there)
          (lose-Holds owed m c h (find_entry-get_elem? idx m c.managed h.2 e))
    | inr moved ↦ rw (fail_check, e, moved) h
  ]
]

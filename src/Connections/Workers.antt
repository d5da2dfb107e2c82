-- ===== src/Connections/Workers.antt =====
-- The workers of the controller keep its invariant, and so does the call that unmanages a connection.
use dnss_cpp.Common.{
  ℕ, ◌+◌, ◌≡◌, refl, Bool, true, false, none, some, List, [], ◌∷◌, ◌++◌, arith, ltb, ==_iff,
  Bool-cases, Option-cases, inl, inr,
}
use dnss_cpp.Connections.{
  Managed, Work, Controller, find_entry, cancel, unmanage, take_work, finish_work,
}
use dnss_cpp.Connections.Entries.{
  count_work, count_work-append, count_work-cancel, find_entry-stream, count_connected-erase,
  AreDistinct-erase, IsFresh-find_entry,
}
use dnss_cpp.Connections.Invariant.{
  Fits, Holds, SameBut, Fits-IsFresh, Fits-erase, Fits-find_entry, Fits-same,
}
use dnss_cpp.Connections.Steps.{written}

-- Work for a stream that is not managed is of no entry.
dropped :
    (owed queue flight : List Work) (s : ℕ) (c : Controller)
    → Holds owed c
    → find_entry s c.managed ≡ none
    → SameBut s
        (λ t. count_work t c.reconnect_queue + count_work t c.in_flight + count_work t owed)
        (λ t. count_work t queue + count_work t flight + count_work t owed)
    → Holds owed (record c { reconnect_queue = queue; in_flight = flight })
dropped owed queue flight s c (a, b, d, f) e same =
    (a, b, d, Fits-IsFresh s _ _ same c.managed (IsFresh-find_entry s c.managed e) f)

-- The work moves between the queue and the workers.
moved :
    (owed queue flight : List Work) (c : Controller)
    → Holds owed c
    → ((t : ℕ)
        → count_work t queue + count_work t flight + count_work t owed
          ≡ count_work t c.reconnect_queue + count_work t c.in_flight + count_work t owed)
    → Holds owed (record c { reconnect_queue = queue; in_flight = flight })
moved owed queue flight c (a, b, d, f) same = (a, b, d, Fits-same _ _ c.managed same f)

take_work-some :
    (owed : List Work) (w : Work) (ws : List Work) (c : Controller)
    → c.reconnect_queue ≡ w ∷ ws
    → Holds owed c
    → Holds owed (take_work true c)
unfolding take_work
take_work-some owed w ws c q h = elim (Option-cases (find_entry w.stream c.managed)) [
  | inl missing ↦
      rw (take_work, q, missing)
        (dropped owed ws c.in_flight w.stream c h missing
          (λ t u. ground (arith, u, q, ==_iff w.stream t, ==_iff t w.stream)))
  | inr (m, e) ↦
      let fits = Fits-find_entry w.stream _ m c.managed e h.3 in
      let stream = find_entry-stream w.stream m c.managed e in
      elim (Bool-cases m.connected) [
        | inl up ↦ ground (arith, up, fits, q, stream, ==_iff w.stream m.stream)
        | inr down ↦
            rw (take_work, q, e, down)
              (moved owed ws (w ∷ c.in_flight) c h (λ t. ground (arith, q)))
      ]
]

take_work-from :
    (owed : List Work) (c : Controller) (q : List Work)
    → c.reconnect_queue ≡ q
    → Holds owed c
    → Holds owed (take_work true c)
unfolding take_work
take_work-from owed c [] q h = rw (take_work, q) h
take_work-from owed c (w ∷ ws) q h = take_work-some owed w ws c q h

pub take_work-Holds :
    (owed : List Work) (c : Controller) → Holds owed c → Holds owed (take_work true c)
take_work-Holds owed c h = take_work-from owed c c.reconnect_queue refl h

count_work-left :
    (t : ℕ) (w : Work) (before after : List Work)
    → count_work t (before ++ (w ∷ after)) ≡ count_work t (before ++ after) + count_work t (w ∷ [])
count_work-left t w before after =
    ground (arith, count_work-append t before (w ∷ after), count_work-append t before after)

-- The outcome for a stream that is managed, in terms of the work that is left.
module _ (owed : List Work) (now : ℕ) (w : Work) (left : List Work) (c : Controller) (m : Managed)
    (one : (t : ℕ) → count_work t c.in_flight ≡ count_work t left + count_work t (w ∷ []))
    (h : Holds owed c) (f : find_entry w.stream c.managed ≡ some m) where
  stream : m.stream ≡ w.stream
  stream = find_entry-stream w.stream m c.managed f

  fits : Fits (λ t. count_work t c.reconnect_queue + count_work t c.in_flight + count_work t owed) m
  fits = Fits-find_entry w.stream _ m c.managed f h.3

  -- It was the only work for the stream, and the entry was down.
  alone :
      (count_work m.stream c.reconnect_queue + count_work m.stream left + count_work m.stream owed
        ≡ 0)
      × (m.connected ≡ false)
  alone = ground (arith, fits, one m.stream, ==_iff w.stream m.stream, stream)

  other :
      SameBut w.stream
        (λ t. count_work t c.reconnect_queue + count_work t c.in_flight + count_work t owed)
        (λ t. count_work t c.reconnect_queue + count_work t left + count_work t owed)
  other t u = ground (arith, u, one t, ==_iff w.stream t, ==_iff t w.stream)

  finish_work-some : (opened : Bool) → Holds owed (finish_work now opened w left c)
  unfolding finish_work
  finish_work-some true =
      rw (finish_work, f)
        (written owed c w.stream m
          (record m {
            reconnect_pending = false;
            connected = true;
            last_use = now;
            last_check = now;
            failures = 0;
          })
          c.reconnect_queue left owed (c.connected_count + 1) h f refl (ground (arith, alone.1))
          other (alone.0, (λ p. cc)))
  finish_work-some false = elim (Bool-cases (ltb w.retries 5)) [
    | inl again ↦
        rw (finish_work, f, again)
          (moved owed (c.reconnect_queue ++ (record w { retries = w.retries + 1 } ∷ [])) left c h
            (λ t. ground (
              arith,
              one t,
              count_work-append t c.reconnect_queue (record w { retries = w.retries + 1 } ∷ []),
            )))
    | inr last ↦
        rw (finish_work, f, last)
          (written owed c w.stream m (record m { reconnect_pending = false }) c.reconnect_queue left
            owed c.connected_count h f refl refl other (alone.0, (λ p. cc)))
  ]

pub finish_work-Holds :
    (owed : List Work) (now : ℕ) (opened : Bool) (w : Work) (before after : List Work)
    (c : Controller)
    → c.in_flight ≡ before ++ (w ∷ after)
    → Holds owed c
    → Holds owed (finish_work now opened w (before ++ after) c)
unfolding finish_work
finish_work-Holds owed now opened w before after c e h =
    let left = before ++ after in
    let one : (t : ℕ) → count_work t c.in_flight ≡ count_work t left + count_work t (w ∷ []) =
      λ t. rw e (count_work-left t w before after) in
    let other : SameBut w.stream
        (λ t. count_work t c.reconnect_queue + count_work t c.in_flight + count_work t owed)
        (λ t. count_work t c.reconnect_queue + count_work t left + count_work t owed) =
      λ t u. ground (arith, u, one t, ==_iff w.stream t, ==_iff t w.stream) in
    elim (Option-cases (find_entry w.stream c.managed)) [
      | inl missing ↦
          rw (finish_work, missing) (dropped owed c.reconnect_queue left w.stream c h missing other)
      | inr (m, f) ↦ finish_work-some owed now w left c m one h f opened
    ]

pub unmanage-Holds : (s : ℕ) (c : Controller) → Holds [] c → Holds [] (unmanage s c)
unfolding unmanage
unmanage-Holds s c h =
    let left = cancel s c.reconnect_queue in
    let other : SameBut s (λ t. count_work t c.reconnect_queue + count_work t c.in_flight + 0)
        (λ t. count_work t left + count_work t c.in_flight + 0) =
      λ t u. ground (arith, u, count_work-cancel s t c.reconnect_queue) in
    elim (Option-cases (find_entry s c.managed)) [
      | inl missing ↦ rw (unmanage, missing) (dropped [] left c.in_flight s c h missing other)
      | inr (m, e) ↦
          let (count, fewer) = count_connected-erase s m c.managed e in
          rw (unmanage, e)
            (
              ground (arith, count, h.0),
              refl,
              AreDistinct-erase s c.managed h.2,
              Fits-erase s _ _ other c.managed h.2 h.3,
            )
    ]

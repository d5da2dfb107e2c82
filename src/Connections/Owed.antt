-- ===== src/Connections/Owed.antt =====
-- The indices that a round of maintenance has marked, between its scan and its last work.
use dnss_cpp.Common.{
  ℕ, zero, suc, ◌+◌, ◌≡◌, refl, sym, ap, ◌∙◌, Bool, true, false, not, ◌||◌, none, some, List, [],
  ◌∷◌, ◌++◌, arith, ltb, ◌==◌, length, length-append, map, get_elem?, Bool-cases, Option-cases, inl,
  inr,
}
use dnss_cpp.Connections.{
  Managed, Work, Controller, work_of, find_entry, replace, notify_used, lose, notify_failure,
  fail_check, take_work, finish_work,
}
use dnss_cpp.Connections.Rounds.{is_down, mark_down, indices_down, push_work}
use dnss_cpp.Connections.Entries.{
  AreDistinct, count_work-append, find_entry-replace, find_entry-stream, find_entry-get_elem?,
}
use dnss_cpp.Connections.Invariant.{Holds, Fits-same}
use dnss_cpp.Connections.Calls.{works_down}

-- At each index stands the entry whose work is owed, told by its stream and address.
abbrev pub Owes : List Work → List ℕ → List Work → Type 0
Owes keys [] [] = Unit
Owes keys [] (w ∷ ws) = ⊥
Owes keys (i ∷ is) [] = ⊥
Owes keys (i ∷ is) (w ∷ ws) = (get_elem? keys i ≡ some w) × Owes keys is ws

abbrev pub keys : Controller → List Work
keys c = map work_of c.managed

-- A write to an entry keeps its stream and its address.
keys-replace :
    (s : ℕ) (old new : Managed) (ms : List Managed)
    → find_entry s ms ≡ some old
    → work_of new ≡ work_of old
    → map work_of (replace s new ms) ≡ map work_of ms
unfolding find_entry replace
keys-replace s old new [] e k = cc
keys-replace s old new (m ∷ ms) e k = elim (Bool-cases (m.stream == s)) [
  | inl at ↦
      let same : m ≡ old = ground (arith, e, at) in
      rw at (ap (λ w. w ∷ map work_of ms) (k ∙ ap work_of (sym same)))
  | inr past ↦
      let later : find_entry s ms ≡ some old = ground (arith, e, past) in
      rw past (ap (λ ws. work_of m ∷ ws) (keys-replace s old new ms later k))
]

pub keys-notify_used : (now s : ℕ) (c : Controller) → keys (notify_used now s c) ≡ keys c
unfolding notify_used
keys-notify_used now s c = elim (Option-cases (find_entry s c.managed)) [
  | inl missing ↦ rw (notify_used, missing) refl
  | inr (m, e) ↦ rw (notify_used, e) (keys-replace s m _ c.managed e refl)
]

keys-lose :
    (m : Managed) (c : Controller)
    → find_entry m.stream c.managed ≡ some m
    → keys (lose m c) ≡ keys c
unfolding lose
keys-lose m c e = keys-replace m.stream m _ c.managed e refl

pub keys-notify_failure : (s : ℕ) (c : Controller) → keys (notify_failure s c) ≡ keys c
unfolding notify_failure
keys-notify_failure s c = elim (Option-cases (find_entry s c.managed)) [
  | inl missing ↦ rw (notify_failure, missing) refl
  | inr (m, e) ↦
      let failed = record m { failures = m.failures + 1 } in
      let stream = find_entry-stream s m c.managed e in
      let found = find_entry-replace s m failed c.managed e stream in
      rw (notify_failure, e)
        (keys-lose failed (record c { managed = replace s failed c.managed })
            (ap (λ t. find_entry t (replace s failed c.managed)) stream ∙ found)
          ∙ keys-replace s m failed c.managed e refl)
]

pub keys-fail_check :
    (check : ℕ × ℕ) (c : Controller) → AreDistinct c.managed → keys (fail_check check c) ≡ keys c
unfolding fail_check
keys-fail_check (idx, s) c d = elim (Option-cases (get_elem? c.managed idx)) [
  | inl missing ↦ rw (fail_check, missing) refl
  | inr (m, e) ↦ elim (Bool-cases (m.stream == s)) [
    | inl there ↦
        rw (fail_check, e, there) (keys-lose m c (find_entry-get_elem? idx m c.managed d e))
    | inr moved ↦ rw (fail_check, e, moved) refl
  ]
]

pub keys-take_work : (opens : Bool) (c : Controller) → keys (take_work opens c) ≡ keys c
unfolding take_work
keys-take_work opens c = from c.reconnect_queue refl
  where
    from : (q : List Work) → c.reconnect_queue ≡ q → keys (take_work opens c) ≡ keys c
    from [] e = rw (take_work, e) refl
    from (w ∷ ws) e = elim (Option-cases (find_entry w.stream c.managed)) [
      | inl missing ↦ rw (take_work, e, missing) refl
      | inr (m, f) ↦ elim (Bool-cases (not opens || m.connected)) [
        | inl drops ↦ rw (take_work, e, f, drops) refl
        | inr takes ↦ rw (take_work, e, f, takes) refl
      ]
    ]

pub keys-finish_work :
    (now : ℕ) (opened : Bool) (w : Work) (left : List Work) (c : Controller)
    → keys (finish_work now opened w left c) ≡ keys c
unfolding finish_work
keys-finish_work now opened w left c = elim (Option-cases (find_entry w.stream c.managed)) [
  | inl missing ↦ rw (finish_work, missing) refl
  | inr (m, e) ↦ found opened m e
]
  where
    found :
        (b : Bool) (m : Managed)
        → find_entry w.stream c.managed ≡ some m
        → keys (finish_work now b w left c) ≡ keys c
    found true m e = rw (finish_work, e) (keys-replace w.stream m _ c.managed e refl)
    found false m e = elim (Bool-cases (ltb w.retries 5)) [
      | inl again ↦ rw (finish_work, e, again) refl
      | inr last ↦ rw (finish_work, e, last) (keys-replace w.stream m _ c.managed e refl)
    ]

get_elem?-longer :
    (xs ys : List Work) (i : ℕ) (w : Work)
    → get_elem? xs i ≡ some w
    → get_elem? (xs ++ ys) i ≡ some w
get_elem?-longer [] ys i w e = cc
get_elem?-longer (x ∷ xs) ys zero w e = e
get_elem?-longer (x ∷ xs) ys (suc i) w e = get_elem?-longer xs ys i w e

pub Owes-longer :
    (xs ys : List Work) (is : List ℕ) (ws : List Work) → Owes xs is ws → Owes (xs ++ ys) is ws
Owes-longer xs ys [] [] h = tt
Owes-longer xs ys [] (w ∷ ws) h = absurd h
Owes-longer xs ys (i ∷ is) [] h = absurd h
Owes-longer xs ys (i ∷ is) (w ∷ ws) (e, h) =
    (get_elem?-longer xs ys i w e, Owes-longer xs ys is ws h)

pub map-append :
    (xs : List Managed) (m : Managed)
    → map work_of (xs ++ (m ∷ [])) ≡ map work_of xs ++ (work_of m ∷ [])
map-append [] m = refl
map-append (x ∷ xs) m = ap (λ ws. work_of x ∷ ws) (map-append xs m)

-- The indices of a scan are those of the entries whose work it owes.
get_elem?-at :
    (pre rest : List Work) (w : Work) → get_elem? (pre ++ (w ∷ rest)) (length pre) ≡ some w
get_elem?-at [] rest w = refl
get_elem?-at (p ∷ pre) rest w = get_elem?-at pre rest w

append-snoc : (pre rest : List Work) (w : Work) → (pre ++ (w ∷ [])) ++ rest ≡ pre ++ (w ∷ rest)
append-snoc [] rest w = refl
append-snoc (p ∷ pre) rest w = ap (λ ws. p ∷ ws) (append-snoc pre rest w)

pub indices_down-Owes :
    (pre : List Work) (ms : List Managed)
    → Owes (pre ++ map work_of (mark_down ms)) (indices_down (length pre) ms) (works_down ms)
unfolding mark_down indices_down
indices_down-Owes pre [] = tt
indices_down-Owes pre (m ∷ ms) =
    let w = work_of m in
    let rest = map work_of (mark_down ms) in
    let longer : length (pre ++ (w ∷ [])) ≡ length pre + 1 = length-append pre (w ∷ []) in
    let ih : Owes (pre ++ (w ∷ rest)) (indices_down (length pre + 1) ms) (works_down ms) =
      rw (← append-snoc pre rest w, ← longer) (indices_down-Owes (pre ++ (w ∷ [])) ms) in
    elim (Bool-cases (is_down m)) [
      | inl down ↦ rw down (get_elem?-at pre rest w, ih)
      | inr up ↦ rw up ih
    ]

-- The entry at the index gets the work that is owed to it.
pub push_work-Holds :
    (i : ℕ) (w : Work) (ws : List Work) (c : Controller)
    → get_elem? (keys c) i ≡ some w
    → Holds (w ∷ ws) c
    → (Holds ws (push_work i c)) × (keys (push_work i c) ≡ keys c)
unfolding push_work
push_work-Holds i w ws c e (a, b, d, f) = elim (Option-cases (get_elem? c.managed i)) [
  | inl missing ↦ absurd (no_key c.managed i w missing e)
  | inr (m, g) ↦
      let same : work_of m ≡ w = key_at c.managed i m w g e in
      rw (push_work, g)
        (
          (
            a,
            b,
            d,
            Fits-same _ _ c.managed
                (λ t. ground (arith, same, count_work-append t c.reconnect_queue (work_of m ∷ [])))
                f,
          ),
          refl,
        )
]
  where
    no_key :
        (ms : List Managed) (i : ℕ) (w : Work)
        → get_elem? ms i ≡ none
        → get_elem? (map work_of ms) i ≡ some w
        → ⊥
    no_key [] i w e g = cc
    no_key (m ∷ ms) zero w e g = cc
    no_key (m ∷ ms) (suc i) w e g = no_key ms i w e g

    key_at :
        (ms : List Managed) (i : ℕ) (m : Managed) (w : Work)
        → get_elem? ms i ≡ some m
        → get_elem? (map work_of ms) i ≡ some w
        → work_of m ≡ w
    key_at [] i m w e g = cc
    key_at (k ∷ ms) zero m w e g = let same : k ≡ m = cc in ap work_of (sym same) ∙ cc
    key_at (k ∷ ms) (suc i) m w e g = key_at ms i m w e g

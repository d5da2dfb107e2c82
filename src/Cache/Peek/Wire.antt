-- ===== src/Cache/Peek/Wire.antt =====
-- How `peekCacheRaw` reads a question from the wire.
use dnss_cpp.Common.{
  ℕ, zero, suc, ◌+◌, ◌≤◌, ◌<◌, ◌≡◌, ◌≢◌, refl, ap, ◌∙◌, Option, none, some, List, [], ◌∷◌, ◌++◌,
  arith, ltb, leb, ◌==◌, length, length-append, drop, All, ok, Gives, Returns, Gives->>=,
  Bool-cases, inl, inr,
}
use dnss_cpp.Protocol.Buffer.{
  read_at, read_below, read_range_below, read_range_at, drop_past, length_past,
}
use dnss_cpp.Protocol.Words.{read_u16}
use dnss_cpp.Protocol.Words.ReadBack.{read_u16_below}
use dnss_cpp.Protocol.Name.{add_label}
use dnss_cpp.Protocol.Name.Labels.{
  IsLabel, join, wire_labels, counted, counted-end, add_labels, add_labels-join, length-wire_labels,
}
use dnss_cpp.Protocol.Name.RoundTrip.{plain_length, drop-past_label}
use dnss_cpp.Common.Bytes.{IsU16}
use dnss_cpp.Protocol.Buffer.Stands.{Stands, Stands-left, Stands-right, Stands-end}
use dnss_cpp.Protocol.Words.{write_u16}
use dnss_cpp.Protocol.Words.ReadBack.{read_u16-write_u16}
use dnss_cpp.Protocol.Parse.{parse_question}
use dnss_cpp.Protocol.Pack.Fields.{question_bytes, parse_question-bytes, two_words}
use mathlib.Core.List.{append_assoc}
use dnss_cpp.Protocol.Message.{DnsQuestion}
use dnss_cpp.Cache.Peek.{
  RawMove, stop, null, next, raw_on_length, raw_step, raw_name, raw_type, raw_counted, raw_question,
}

-- A round goes forward, within the buffer.
abbrev Forward : List ℕ → ℕ → RawMove → Type 0
Forward buf p stop = Unit
Forward buf p null = Unit
Forward buf p (next name q) = (p < q) × (q ≤ length buf)

raw_on_length-Forward :
    (buf : List ℕ) (p : ℕ) (name : List ℕ) (len : ℕ)
    → Gives (Forward buf p) (raw_on_length buf p name len)
unfolding raw_on_length
raw_on_length-Forward buf p name len = ground (arith, read_range_below buf (p + 1) len)

raw_step-Forward :
    (buf : List ℕ) (p : ℕ) (name : List ℕ) → Gives (Forward buf p) (raw_step buf p name)
unfolding raw_step
raw_step-Forward buf p name = elim (Bool-cases (leb (length buf) p)) [
  | inl h ↦ rw h tt
  | inr h ↦
      let (b, e) = read_below buf p (ground arith) in
      rw h (rw e (raw_on_length-Forward buf p name b))
]

raw_name-Returns :
    (fuel : ℕ) (buf : List ℕ) (p : ℕ) (name : List ℕ)
    → length buf < p + fuel
    → p ≤ length buf
    → Returns (raw_name fuel buf p name)
unfolding raw_name
raw_name-Returns zero buf p name h v = absurd (omega arith)
raw_name-Returns (suc fuel) buf p name h v =
    Gives->>= (Forward buf p) (λ _. Unit {0}) (raw_step buf p name) _ (raw_step-Forward buf p name)
      (elim [
        | stop ↦ λ w. tt
        | null ↦ λ w. tt
        | next n q ↦ λ (a, b). raw_name-Returns fuel buf q n (omega arith) b
      ])

raw_type-Returns : (buf : List ℕ) (o : Option (List ℕ × ℕ)) → Returns (raw_type buf o)
unfolding raw_type
raw_type-Returns buf none = tt
raw_type-Returns buf (some (name, p)) = elim (Bool-cases (ltb (length buf) (p + 1 + 4))) [
  | inl h ↦ ground arith
  | inr h ↦
      let (t, e) = read_u16_below buf (p + 1) (ground arith) in
      let (u, f) = read_u16_below buf (p + 3) (ground arith) in ground (arith, e, f)
]

-- On any bytes, `peekCacheRaw` finds a question or none: it throws nothing, reads nothing outside the
-- request, and its loop ends within its fuel.
pub raw_question-Returns : (buf : List ℕ) → Returns (raw_question buf)
unfolding raw_question raw_counted
raw_question-Returns buf = elim (Bool-cases (ltb (length buf) 12)) [
  | inl h ↦ rw h tt
  | inr h ↦
      let (n, e) = read_u16_below buf 4 (ground arith) in rw h (rw e (counted n (ground arith)))
]
  where
    counted : (n : ℕ) → 12 ≤ length buf → Returns (raw_counted buf n)
    counted n h = elim (Bool-cases (n == 0)) [
      | inl z ↦ rw z tt
      | inr z ↦ rw z (
          Gives->>= (λ _. Unit {0}) (λ _. Unit {0}) (raw_name (suc (length buf)) buf 12 []) _
            (raw_name-Returns (suc (length buf)) buf 12 [] (omega arith) h)
            (λ o _. raw_type-Returns buf o))
    ]

raw_step_label :
    (buf : List ℕ) (p : ℕ) (name l rest : List ℕ)
    → 1 ≤ length l
    → length l ≤ 63
    → p ≤ length buf
    → drop p buf ≡ length l ∷ (l ++ rest)
    → raw_step buf p name ≡ ok (next (add_label name l) (p + 1 + length l))
unfolding raw_step raw_on_length
raw_step_label buf p name l rest a b h e =
    let room = length_past p buf (length l ∷ l) rest e in
    let here = read_at buf p (length l) e in
    let inside =
      read_range_at buf (p + 1) l rest (omega (arith, room))
        (drop_past p buf (length l ∷ []) (l ++ rest) e) in
    ground (arith, here, inside, room, plain_length (length l))

stops :
    (buf : List ℕ) (p : ℕ) (name rest : List ℕ)
    → p ≤ length buf
    → drop p buf ≡ 0 ∷ rest
    → raw_step buf p name ≡ ok stop
unfolding raw_step raw_on_length
stops buf p name rest h e = ground (arith, read_at buf p 0 e)

raw_name-counted :
    (fuel : ℕ) (buf : List ℕ) (p : ℕ) (name : List ℕ) (ls : List (List ℕ)) (rest : List ℕ)
    → length ls < fuel
    → All IsLabel ls
    → p ≤ length buf
    → drop p buf ≡ wire_labels ls ++ rest
    → raw_name fuel buf p name ≡ ok (some (add_labels name ls, p + length (counted ls)))
unfolding raw_name add_labels counted wire_labels
raw_name-counted zero buf p name ls rest f v h e = absurd (omega arith)
raw_name-counted (suc fuel) buf p name [] rest f v h e =
    rw (stops buf p name rest h e) (ap (λ (n : ℕ). ok (some (name, n))) (omega arith))
raw_name-counted (suc fuel) buf p name (l ∷ ls) rest f (v, vs) h e =
    let whole = e ∙ ap (◌∷◌ (length l)) (append_assoc l (wire_labels ls) rest) in
    let room = length_past p buf (length l ∷ l) (wire_labels ls ++ rest) whole in
    rw (raw_step_label buf p name l (wire_labels ls ++ rest) v.0 v.1 h whole) (
      raw_name-counted fuel buf (p + 1 + length l) (add_label name l) ls rest (omega arith) vs
        (omega (arith, room)) (drop-past_label buf p l (wire_labels ls ++ rest) whole)
      ∙ ap (λ (n : ℕ). ok (some (add_labels (add_label name l) ls, n)))
          (omega (arith, length-append l (counted ls))))

length-counted : (ls : List (List ℕ)) → suc (length (counted ls)) ≡ length (wire_labels ls)
length-counted ls = omega (arith, ap length (counted-end ls), length-append (counted ls) (0 ∷ []))

at_position : (buf : List ℕ) {p q v : ℕ} → p ≡ q → read_u16 buf q ≡ ok v → read_u16 buf p ≡ ok v
at_position buf e h = ap (read_u16 buf) e ∙ h

module _ (ls : List (List ℕ)) (v : All IsLabel ls) (buf : List ℕ) (qtype qclass : ℕ) where
  abbrev asked : DnsQuestion
  asked = record { qname = join ls; qtype = qtype; qclass = qclass }

  raw_type-bytes :
      IsU16 qtype
      → IsU16 qclass
      → Stands buf 12 (question_bytes ls v buf 12 qtype qclass)
      → raw_type buf (some (join ls, 12 + length (counted ls))) ≡ ok (some asked)
  unfolding raw_type write_u16
  raw_type-bytes ht hc s =
      let after = Stands-right buf 12 (wire_labels ls) _ s in
      let size = length-counted ls in
      let (t, more) =
        two_words buf _ (12 + length (wire_labels ls) + 2) qtype (write_u16 qclass) refl ht after in
      let c = read_u16-write_u16 buf (12 + length (wire_labels ls) + 2) qclass hc more in
      ground (
        arith,
        Stands-end buf _ (write_u16 qclass) more,
        size,
        at_position buf (first size) t,
        at_position buf (second size) c,
      )
    where
      first : {n m : ℕ} → suc n ≡ m → 12 + n + 1 ≡ 12 + m
      first e = omega arith

      second : {n m : ℕ} → suc n ≡ m → 12 + n + 3 ≡ 12 + m + 2
      second e = omega arith

  -- Where a question of well-formed labels, a type and a class of 16 bits stand behind the header of
  -- a request whose count of questions is not zero, `peekCacheRaw` reads the question that `parse`
  -- reads there.
  pub raw_question-parse_question :
      (n : ℕ)
      → IsU16 qtype
      → IsU16 qclass
      → read_u16 buf 4 ≡ ok n
      → n ≢ 0
      → Stands buf 12 (question_bytes ls v buf 12 qtype qclass)
      → (raw_question buf ≡ ok (some asked))
        × (parse_question buf 12
            ≡ ok (asked, 12 + length (question_bytes ls v buf 12 qtype qclass)))
  unfolding raw_question raw_counted
  raw_question-parse_question n ht hc e nz s = (
    ground (arith, e, s.inside, named, raw_type-bytes ht hc s),
    parse_question-bytes ls v buf 12 qtype qclass ht hc s,
  )
    where
      name_here : Stands buf 12 (wire_labels ls)
      name_here = Stands-left buf 12 (wire_labels ls) _ s

      named : raw_name (suc (length buf)) buf 12 [] ≡ ok (some (join ls, 12 + length (counted ls)))
      named =
          raw_name-counted (suc (length buf)) buf 12 [] ls name_here.rest
            (omega (
              arith,
              length-wire_labels ls,
              length_past 12 buf (wire_labels ls) name_here.rest name_here.here,
            ))
            v name_here.inside name_here.here
          ∙ ap (λ (t : List ℕ). ok (some (t, 12 + length (counted ls)))) (add_labels-join ls v)

-- ===== src/Http/Response/Cut.antt =====
-- An answer over HTTP does not depend on how the stream is cut into reads.
use dnss_cpp.Common.{
  ℕ, ◌+◌, ◌-◌, ◌<◌, ◌≡◌, refl, sym, ap, ◌∙◌, Option, none, some, List, [], ◌∷◌, ◌++◌, ltb, arith,
  if◌then◌else◌, length, length-append, take, Result, ok, ◌>>=◌, Option-cases, Bool-cases, inl, inr,
}
use mathlib.Core.List.{append_assoc, append-nil}
use dnss_cpp.Common.Text.{split_at}
use dnss_cpp.Common.Search.{split_text, contains, strip_prefix, split_text_size, split_text-longer}
use dnss_cpp.Protocol.Parse.{parse}
use dnss_cpp.Protocol.Message.{DnsMessage}
use dnss_cpp.Http.Response.{
  Read, bytes, head_end, status_ok, content_length, Head, is_complete, read_head, unless_complete,
  read_loop, memory, parse_body, with_head, read_answer, after_loop, read_response,
}

abbrev pub concat : List (List ℕ) → List ℕ
concat [] = []
concat (chunk ∷ chunks) = chunk ++ concat chunks

-- The stream gives these chunks, and then the other reads.
abbrev pub reads_of : List (List ℕ) → List Read → List Read
reads_of [] tail = tail
reads_of (chunk ∷ chunks) tail = bytes chunk ∷ reads_of chunks tail

take_all : (xs : List ℕ) → take (length xs) xs ≡ xs
take_all [] = refl
take_all (x ∷ xs) = ap (◌∷◌ x) (take_all xs)

module _ (whole head body : List ℕ) (n : ℕ) (tail : List Read) where
  -- What the loop keeps of the head.
  abbrev seen : Head
  seen = record {
    ends_at = length head;
    length = n;
    chunked = contains (b'c' ∷ b'h' ∷ b'u' ∷ b'n' ∷ b'k' ∷ b'e' ∷ b'd' ∷ []) head;
  }

  rest_of :
      (buf chunk : List ℕ) (chunks : List (List ℕ))
      → buf ++ concat (chunk ∷ chunks) ≡ whole
      → ((buf ++ chunk) ++ concat chunks ≡ whole)
        × (length (buf ++ chunk) + length (concat chunks) ≡ length whole)
  rest_of buf chunk chunks e =
      let whole_is = append_assoc buf chunk (concat chunks) ∙ e in
      (whole_is, sym (length-append (buf ++ chunk) (concat chunks)) ∙ ap length whole_is)

  nil_of_length : (xs : List ℕ) → length xs ≡ 0 → xs ≡ []
  nil_of_length [] h = refl
  nil_of_length (x ∷ xs) h = ground (arith, h)

  -- Exactly what was announced: the loop ends with all of it, and reads nothing else.
  full_loop :
      (chunks : List (List ℕ)) (buf : List ℕ)
      → 0 < n
      → length whole ≡ length head + 4 + n
      → length buf < length whole
      → buf ++ concat chunks ≡ whole
      → read_loop (some seen) buf (reads_of chunks tail) ≡ ok (some whole)
  unfolding read_loop unless_complete is_complete
  full_loop [] buf z s b e = absurd (omega (arith, b, ap length (sym (append-nil buf) ∙ e)))
  full_loop (chunk ∷ chunks) buf z s b e =
      let (f, m) = rest_of buf chunk chunks e in
      elim (Bool-cases (ltb (length (buf ++ chunk)) (length whole))) [
        | inl more ↦
            ground (arith, m, more, full_loop chunks (buf ++ chunk) z s (ground (arith, more)) f)
        | inr all ↦
            let nothing = nil_of_length (concat chunks) (ground (arith, m, all)) in
            let same : buf ++ chunk ≡ whole =
              sym (append-nil (buf ++ chunk)) ∙ ap (◌++◌ (buf ++ chunk)) (sym nothing) ∙ f in
            ground (arith, m, all, same)
      ]

  found_late :
      (buf : List ℕ)
      → (split_text head_end buf).1 ≡ none
      → buf ≡ whole
      → split_text head_end whole ≡ (head, some body)
      → ⊥
  found_late buf u e w = ground (arith, u, w, ap (λ b. (split_text head_end b).1) e)

  -- The head that is found first is the head of the whole.
  found_head :
      (read more : List ℕ) (chunks : List (List ℕ))
      → (split_text head_end read).1 ≡ some more
      → read ++ concat chunks ≡ whole
      → split_text head_end whole ≡ (head, some body)
      → (split_text head_end read).0 ≡ head
  found_head read more chunks found f w =
      let pair : split_text head_end read ≡ ((split_text head_end read).0, some more) =
        ap (λ o. ((split_text head_end read).0, o)) found in
      let longer =
        split_text-longer 13 (10 ∷ 13 ∷ 10 ∷ []) read (concat chunks) (split_text head_end read).0
          more pair in
      ap (λ p. p.0) (sym longer ∙ ap (split_text head_end) f ∙ w)

  -- Before the head was read, a loop comes to the loop that knows it. `after` is what that one gives.
  head_loop :
      (after : Result (Option (List ℕ))) (chunks : List (List ℕ)) (buf : List ℕ)
      → split_text head_end whole ≡ (head, some body)
      → content_length head 0 ≡ ok n
      → (split_text head_end buf).1 ≡ none
      → ((chunks : List (List ℕ)) (buf chunk : List ℕ)
          → (split_text head_end buf).1 ≡ none
          → buf ++ concat (chunk ∷ chunks) ≡ whole
          → read_loop (some seen) buf (reads_of (chunk ∷ chunks) tail) ≡ after)
      → buf ++ concat chunks ≡ whole
      → read_loop none buf (reads_of chunks tail) ≡ after
  unfolding read_loop read_head
  head_loop after [] buf w c u k e = absurd (found_late buf u (sym (append-nil buf) ∙ e) w)
  head_loop after (chunk ∷ chunks) buf w c u k e =
      let read = buf ++ chunk in
      let (f, m) = rest_of buf chunk chunks e in
      elim (Option-cases (split_text head_end read).1) [
        | inl waiting ↦
            rw (read_loop, read_head, waiting) (head_loop after chunks read w c waiting k f)
        | inr (more, found) ↦
            rw (read_loop, read_head, found, found_head read more chunks found f w, c)
              (k chunks buf chunk u e)
      ]

  nothing_yet : (split_text head_end []).1 ≡ none
  unfolding split_text strip_prefix
  nothing_yet = refl

  content_length_same :
      (otherwise : ℕ) → 0 < n → content_length head 0 ≡ ok n → content_length head otherwise ≡ ok n
  unfolding content_length
  content_length_same otherwise z c = ground (arith, c)

  early :
      (buf rest : List ℕ)
      → (split_text head_end buf).1 ≡ none
      → split_text head_end whole ≡ (head, some body)
      → buf ++ rest ≡ whole
      → length buf < length whole
  early buf rest u w f = elim (Bool-cases (ltb (length buf) (length whole))) [
    | inl more ↦ ground (arith, more)
    | inr all ↦
        let size = sym (length-append buf rest) ∙ ap length f in
        let nothing = nil_of_length rest (ground (arith, all, size)) in
        absurd (found_late buf u (sym (append-nil buf) ∙ ap (◌++◌ buf) (sym nothing) ∙ f) w)
  ]

  loop_complete :
      (chunks : List (List ℕ))
      → split_text head_end whole ≡ (head, some body)
      → content_length head 0 ≡ ok n
      → 0 < n
      → n ≡ length body
      → concat chunks ≡ whole
      → read_loop none [] (reads_of chunks tail) ≡ ok (some whole)
  loop_complete chunks w c z b e =
      let size = split_text_size head_end whole head body w in
      head_loop (ok (some whole)) chunks [] w c nothing_yet
        (λ more buf chunk u f.
          full_loop (chunk ∷ more) buf z (omega (arith, size, b))
            (early buf (concat (chunk ∷ more)) u w f) f)
        e

-- What the body of a reply is parsed to, under the status line of `head`.
abbrev pub answer_of : List ℕ → Result DnsMessage → Result (Option DnsMessage)
answer_of head parsed =
    if contains status_ok (split_at 13 head).0 then (do m ← parsed; ok (some m)) else ok none

parse_body_complete :
    (behind : ℕ → ℕ) (body : List ℕ)
    → 0 < length body
    → parse_body behind body (length body) ≡ (do m ← parse body; ok (some m))
unfolding parse_body
parse_body_complete behind body z =
    let none_left : length body - length body ≡ 0 = omega arith in
    let nothing : memory behind 0 (length body - length body) ≡ [] =
      ap (memory behind 0) none_left ∙ (unfold memory in refl) in
    rw (take_all body, nothing, append-nil body) (ground arith)

read_answer_complete :
    (behind : ℕ → ℕ) (whole head body : List ℕ)
    → split_text head_end whole ≡ (head, some body)
    → content_length head (length body) ≡ ok (length body)
    → 0 < length body
    → read_answer behind whole ≡ answer_of head (parse body)
unfolding read_answer with_head
read_answer_complete behind whole head body w c z =
    ground (arith, w, c, parse_body_complete behind body z)

-- However the stream is cut into reads, an answer with a head and a body of exactly the length that the
-- head announces, which is not zero, gives what the body parses to, or nothing where the status line
-- has no 200. The reads behind it do not matter, nor what the memory has behind the body.
pub read_response_complete :
    (behind : ℕ → ℕ) (head body : List ℕ) (chunks : List (List ℕ)) (tail : List Read)
    → split_text head_end (concat chunks) ≡ (head, some body)
    → content_length head 0 ≡ ok (length body)
    → 0 < length body
    → read_response behind (reads_of chunks tail) ≡ answer_of head (parse body)
unfolding read_response after_loop
read_response_complete behind head body chunks tail w c z =
    let whole = concat chunks in
    let n = length body in
    rw (loop_complete whole head body n tail chunks w c z refl refl) (
      read_answer_complete behind whole head body w
        (content_length_same whole head body n tail n z c) z)

-- ===== src/Http/Response.antt =====
-- `Connection::exchange` of http_resolver.cpp: the loop that reads an answer, and what it makes of it.
-- `healthCheck` of connection_controller.cpp has the same loop. A read gives bytes, the end of the
-- stream or an error; when there is no further read, it is the timeout, an error.
pub mod Cut
use dnss_cpp.Common.{
  ℕ, zero, suc, ◌+◌, ◌-◌, ◌*◌, ◌^◌, min, Bool, true, false, not, ◌&&◌, ◌||◌, Option, none, some,
  List, [], ◌∷◌, ◌++◌, ltb, leb, ◌==◌, if◌then◌else◌, length, take, drop, Result, ok, throw,
  out_of_bounds, out_of_fuel, ◌>>=◌, invalid_argument, out_of_range,
}
use dnss_cpp.Common.Text.{split_at, drop_spaces}
use dnss_cpp.Common.Search.{split_text, contains}
use dnss_cpp.Cache.Policy.{is_empty}
use dnss_cpp.Protocol.Message.{DnsMessage}
use dnss_cpp.Protocol.Parse.{parse}

pub data Read : Type 0 where
  bytes : List ℕ → Read
  eof failed : Read

abbrev pub line_end : List ℕ
line_end = 13 ∷ 10 ∷ []

abbrev pub head_end : List ℕ
head_end = 13 ∷ 10 ∷ 13 ∷ 10 ∷ []

-- "Content-Length: "
abbrev pub length_field : List ℕ
length_field =
    b'C' ∷ b'o' ∷ b'n' ∷ b't' ∷ b'e' ∷ b'n' ∷ b't' ∷ b'-' ∷ b'L' ∷ b'e' ∷ b'n' ∷ b'g' ∷ b't' ∷ b'h'
    ∷ b':' ∷ b' ' ∷ []

-- "chunked"
abbrev pub chunked : List ℕ
chunked = b'c' ∷ b'h' ∷ b'u' ∷ b'n' ∷ b'k' ∷ b'e' ∷ b'd' ∷ []

-- "200"
abbrev pub status_ok : List ℕ
status_ok = b'2' ∷ b'0' ∷ b'0' ∷ []

abbrev pub is_digit : ℕ → Bool
is_digit c = leb b'0' c && leb c b'9'

-- The value of the digits at the start, after those before.
unfoldable pub digits_value : ℕ → List ℕ → ℕ
digits_value n [] = n
digits_value n (c ∷ cs) =
    let rest = digits_value (n * 10 + (c - b'0')) cs in if is_digit c then rest else n

unfoldable pub magnitude : List ℕ → Result ℕ
magnitude [] = throw invalid_argument
magnitude (c ∷ cs) =
    let n = digits_value 0 (c ∷ cs) in
    if not (is_digit c)
    then throw invalid_argument
    else if ltb n (2 ^ 64)
    then ok n
    else throw out_of_range

-- `strtoul`: a sign may stand in front, and a minus wraps round.
unfoldable pub signed : List ℕ → Result ℕ
signed [] = throw invalid_argument
signed (c ∷ cs) =
    if c == b'-'
    then (do n ← magnitude cs; ok (if n == 0 then 0 else 2 ^ 64 - n))
    else if c == b'+'
    then magnitude cs
    else magnitude (c ∷ cs)

unfoldable pub stoul : List ℕ → Result ℕ
stoul text = signed (drop_spaces text)

-- The value of Content-Length in a head, and `otherwise` without one. The value must be followed by a
-- line end, which the last line of the head is not. At most 31 characters are read.
unfoldable pub content_length : List ℕ → ℕ → Result ℕ
content_length head otherwise = elim (split_text length_field head).1 [
  | none ↦ ok otherwise
  | some field ↦
      let (value, after) = split_text line_end field in
      elim after [ none ↦ ok otherwise | some more ↦ stoul (take 31 value) ]
]

-- `head` is set once the end of the head was read: where it ends, the length and whether the body is
-- chunked.
pub record Head : Type 0 where
  pub ends_at : ℕ
  pub length : ℕ
  pub chunked : Bool

-- Whether the loop ends with this buffer.
unfoldable pub is_complete : Head → List ℕ → Bool
is_complete h buf =
    if ltb 0 h.length then leb h.length (length buf - (h.ends_at + 4)) else not h.chunked

unfoldable pub read_head : List ℕ → Result (Option Head)
read_head buf =
    let (head, after) = split_text head_end buf in
    elim after [
      | none ↦ ok none
      | some more ↦ (do
        n ← content_length head 0
        ok (some (record { ends_at = length head; length = n; chunked = contains chunked head })))
    ]

-- The buffer, where it ends the loop, or what the loop goes on to.
unfoldable pub unless_complete : Head → List ℕ → Result (Option (List ℕ)) → Result (Option (List ℕ))
unless_complete h buf more = if is_complete h buf then ok (some buf) else more

-- The loop: nothing if a read fails, and else the buffer when it ends.
unfoldable pub read_loop : Option Head → List ℕ → List Read → Result (Option (List ℕ))
read_loop head buf [] = ok none
read_loop head buf (failed ∷ reads) = ok none
read_loop head buf (eof ∷ reads) = ok (some buf)
read_loop none buf (bytes chunk ∷ reads) = do
  head ← read_head (buf ++ chunk)
  elim head [
    | none ↦ read_loop none (buf ++ chunk) reads
    | some h ↦ unless_complete h (buf ++ chunk) (read_loop (some h) (buf ++ chunk) reads)
  ]
read_loop (some h) buf (bytes chunk ∷ reads) =
    unless_complete h (buf ++ chunk) (read_loop (some h) (buf ++ chunk) reads)

-- `behind` has the bytes in memory behind those that were received, by their distance. Where the body
-- is shorter than announced, `parse` reads them if it comes so far, which C++ leaves undefined.
module _ (behind : ℕ → ℕ) where
  unfoldable pub memory : ℕ → ℕ → List ℕ
  memory at zero = []
  memory at (suc k) = behind at ∷ memory (at + 1) k

  -- `DnsMessage::parse(raw + bodyOffset, totalBody)`
  unfoldable pub parse_body : List ℕ → ℕ → Result (Option DnsMessage)
  parse_body body n =
      if n == 0
      then ok none
      else (do m ← parse (take n body ++ memory 0 (n - length body)); ok (some m))

  unfoldable pub with_head : List ℕ → List ℕ → Result (Option DnsMessage)
  with_head head body =
      let answer = (do n ← content_length head (length body); parse_body body n) in
      if contains status_ok (split_at 13 head).0 then answer else ok none

  unfoldable pub read_answer : List ℕ → Result (Option DnsMessage)
  read_answer buf =
      let (head, after) = split_text head_end buf in
      elim after [ none ↦ ok none | some body ↦ with_head head body ]

  unfoldable pub after_loop : Option (List ℕ) → Result (Option DnsMessage)
  after_loop none = ok none
  after_loop (some buf) = read_answer buf

  unfoldable pub read_response : List Read → Result (Option DnsMessage)
  read_response reads = do buf ← read_loop none [] reads; after_loop buf

-- `healthCheck`, once the request is written: whether anything came back.
unfoldable pub is_healthy : List Read → Result Bool
is_healthy reads = do
  buf ← read_loop none [] reads
  ok (elim buf [ none ↦ false | some b ↦ not (is_empty b) ])

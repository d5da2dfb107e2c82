-- ===== src/Protocol/Name.antt =====
-- Domain names on the wire: `wireToName` and `nameToWire` of dns_protocol.hpp. A C++ string is
-- the list of its bytes, and `start`, `p` and `end` are 0, a position and the buffer's length.
pub mod Bounds
pub mod Grammar
pub mod Sound
pub mod Labels
pub mod RoundTrip
pub mod Emit
use dnss_cpp.Common.{
  ℕ, zero, suc, ◌+◌, ◌*◌, Bool, true, false, Option, none, some, List, [], ◌∷◌, ◌++◌, ltb, leb,
  ◌==◌, if◌then◌else◌, length, bit_and, bit_or, Result, ok, throw, out_of_fuel, truncated_name,
  truncated_pointer, pointer_cycle, truncated_label, label_too_long, ◌>>=◌, ◌>>◌, throw_if,
}
use dnss_cpp.Protocol.Buffer.{read, read_range}

-- The local variables of `wireToName`.
pub record Scan : Type 0 where
  pub pos : ℕ
  pub name : List ℕ
  pub jumped : Bool
  pub saved : Option ℕ
  pub jump_count : ℕ

-- One round of the loop goes on, or ends with the name and the position behind it.
pub data Move : Type 0 where
  next : Scan → Move
  finished : List ℕ → ℕ → Move

abbrev pub dot : ℕ
dot = b'.'

-- `if (!name.empty()) name.push_back('.'); name.append(label)`
unfoldable pub add_label : List ℕ → List ℕ → List ℕ
add_label [] label = label
add_label (b ∷ bs) label = (b ∷ bs) ++ (dot ∷ label)

-- `if (!jumped) ++p; break;` and `if (jumped && saved) p = saved;`
unfoldable pub end_of_name : Scan → Move
end_of_name s =
    if s.jumped
    then finished s.name (elim s.saved [ none ↦ s.pos | some q ↦ q ])
    else finished s.name (s.pos + 1)

unfoldable pub follow_pointer : List ℕ → Scan → ℕ → Result Move
follow_pointer buf s len = do
  throw_if (leb (length buf) (s.pos + 1)) truncated_pointer
  throw_if (ltb 10 (s.jump_count + 1)) pointer_cycle
  low ← read buf (s.pos + 1)
  ok (
      next (record {
        pos = bit_or (bit_and len 0x3F * 256) low;
        name = s.name;
        jumped = true;
        saved = if s.jumped then s.saved else some (s.pos + 2);
        jump_count = s.jump_count + 1;
      }))

unfoldable pub read_label : List ℕ → Scan → ℕ → Result Move
read_label buf s len = do
  throw_if (ltb (length buf) (s.pos + 1 + len)) truncated_label
  label ← read_range buf (s.pos + 1) len
  ok (next (record s { pos = s.pos + 1 + len; name = add_label s.name label }))

unfoldable pub on_length : List ℕ → Scan → ℕ → Result Move
on_length buf s len =
    if len == 0
    then ok (end_of_name s)
    else if bit_and len 0xC0 == 0xC0
    then follow_pointer buf s len
    else read_label buf s len

-- The body of `while (true)`.
unfoldable pub scan_step : List ℕ → Scan → Result Move
scan_step buf s = do
  throw_if (leb (length buf) s.pos) truncated_name
  len ← read buf s.pos
  on_length buf s len

unfoldable pub scan : ℕ → List ℕ → Scan → Result (List ℕ × ℕ)
scan zero buf s = out_of_fuel
scan (suc fuel) buf s = do
  m ← scan_step buf s
  elim m [ next t ↦ scan fuel buf t | finished name p ↦ ok (name, p) ]

abbrev pub start_at : ℕ → Scan
start_at p = record { pos = p; name = []; jumped = false; saved = none; jump_count = 0 }

-- At most ten jumps, and between two jumps at most one round for each byte of the buffer.
abbrev pub rounds : List ℕ → ℕ
rounds buf = 11 * suc (length buf)

-- The name at `p`, and where the caller's `p` stands afterwards.
unfoldable pub wire_to_name : List ℕ → ℕ → Result (List ℕ × ℕ)
wire_to_name buf p = scan (rounds buf) buf (start_at p)

-- `name.find('.', start)`: the label up to the dot, and what follows the dot, if there is one.
unfoldable pub split_dot : List ℕ → List ℕ × Option (List ℕ)
split_dot [] = ([], none)
split_dot (b ∷ bs) =
    let (label, rest) = split_dot bs in if b == dot then ([], some bs) else (b ∷ label, rest)

unfoldable pub emit_label : List ℕ → List ℕ → Result (List ℕ)
emit_label out label =
    if length label == 0
    then ok out
    else if ltb 63 (length label)
    then throw label_too_long
    else ok (out ++ (length label ∷ label))

-- The loop over the labels; the list is `name` from `start` on.
unfoldable pub emit_labels : ℕ → List ℕ → List ℕ → Result (List ℕ)
emit_labels zero name out = out_of_fuel
emit_labels (suc fuel) name out = do
  let split = split_dot name
  out' ← emit_label out split.0
  elim split.1 [ none ↦ ok out' | some rest ↦ emit_labels fuel rest out' ]

unfoldable pub is_root : List ℕ → Bool
is_root [] = true
is_root (b ∷ []) = b == dot
is_root (b ∷ c ∷ bs) = false

unfoldable pub name_to_wire : List ℕ → Result (List ℕ)
name_to_wire name =
    if is_root name
    then ok (0 ∷ [])
    else do out ← emit_labels (suc (length name)) name []; ok (out ++ (0 ∷ []))

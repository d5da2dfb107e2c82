-- ===== src/Server/Tcp/Frames.antt =====
-- The length prefix of a message on a stream: what `tcpAcceptLoop` reads of what is framed.
use dnss_cpp.Common.{ℕ, ◌%◌, ◌≤◌, ◌<◌, ◌≡◌, some, List, ◌++◌, arith, length, length-append}
use dnss_cpp.Protocol.Words.{write_u16}
use dnss_cpp.Protocol.Words.ReadBack.{read_u16-write_u16, length-write_u16}
use mathlib.Core.List.{append_assoc}
use dnss_cpp.Protocol.Buffer.Stands.{Stands-whole}
use dnss_cpp.Protocol.Buffer.{take-append, drop-append}
use dnss_cpp.Protocol.Parse.{parse}
use dnss_cpp.Server.Tcp.{read_exactly, accepted, read_body, read_request, frame}

read_exactly-append : (xs ys : List ℕ) → read_exactly (length xs) (xs ++ ys) ≡ some (xs, ys)
unfolding read_exactly
read_exactly-append xs ys =
    ground (arith, length-append xs ys, take-append xs ys, drop-append xs ys)

read_body-append :
    (wire rest : List ℕ)
    → 12 ≤ length wire
    → read_body (length wire) (wire ++ rest) ≡ accepted wire (parse wire)
unfolding read_body
read_body-append wire rest h = ground (arith, read_exactly-append wire rest)

two_bytes :
    (v : ℕ) (rest : List ℕ) → read_exactly 2 (write_u16 v ++ rest) ≡ some (write_u16 v, rest)
two_bytes v rest = rw (← length-write_u16 v) (read_exactly-append (write_u16 v) rest)

-- From a stream that begins with the frame of 12 to 65535 bytes, exactly these are taken as the
-- request, whatever follows: they count if they parse and have a question.
pub read_request-frame :
    (wire rest : List ℕ)
    → 12 ≤ length wire
    → length wire < 65536
    → read_request (frame wire ++ rest) ≡ accepted wire (parse wire)
unfolding frame read_request
read_request-frame wire rest h k =
    let v = length wire in
    let whole : v % 65536 ≡ v = omega arith in
    rw
      (
        whole,
        append_assoc (write_u16 v) wire rest,
        read_request,
        two_bytes v (wire ++ rest),
        read_u16-write_u16 (write_u16 v) 0 v k (Stands-whole (write_u16 v)),
      )
      (read_body-append wire rest h)

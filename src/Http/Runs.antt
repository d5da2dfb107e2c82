-- ===== src/Http/Runs.antt =====
-- Runs of the resolver over HTTP, and the theorems at them.
use dnss_cpp.Common.{
  ℕ, ◌+◌, ◌-◌, min, ◌≡◌, refl, ◌↔◌, true, false, Option, none, some, List, [], ◌∷◌, ◌++◌, arith,
  All, ok, Gives,
}
use dnss_cpp.Common.Text.{is_space, drop_spaces}
use dnss_cpp.Common.Search.{split_text, strip_prefix}
use dnss_cpp.Cache.Policy.{is_empty}
use dnss_cpp.Protocol.Parse.{parse}
use dnss_cpp.Http.Url.{
  parse_url, target_of, trim_blanks, pop_while, erase_while, matches_no_proxy, port_or,
}
use dnss_cpp.Http.Url.RoundTrip.{url_text, parse_url-url_text}
use dnss_cpp.Http.Url.NoProxy.{no_proxy_text, IsEntry, Exempts, matches_no_proxy_iff}
use dnss_cpp.Http.Response.{
  failed, head_end, content_length, stoul, signed, magnitude, digits_value, read_response,
}
use dnss_cpp.Http.Response.Cut.{concat, reads_of, answer_of, read_response_complete}
use dnss_cpp.Http.Pool.{Connection, UpstreamPool, new_connection, get_next_connection, maintain}
use dnss_cpp.Http.Pool.Next.{Takes, get_next_connection-Takes}
use dnss_cpp.Http.Pool.Sizes.{IsSized, maintain-IsSized}
use dnss_cpp.Http.Post.Leaks.{held, idle, failed_calls, held-failed_calls}

-- "https", "a" and "8"
abbrev scheme : List ℕ
scheme = b'h' ∷ b't' ∷ b't' ∷ b'p' ∷ b's' ∷ []

abbrev a : List ℕ
a = b'a' ∷ []

abbrev port : Option (List ℕ)
port = some (b'8' ∷ [])

parse_url-url_text_example :
    parse_url (url_text scheme a port none)
    ≡ record { host = a; port = b'8' ∷ []; target = target_of none }
unfolding port_or
parse_url-url_text_example =
    parse_url-url_text scheme a port none (refl, (refl, (refl, (refl, (refl, tt))))) (refl, tt)
      (refl, tt) (refl, tt)

abbrev star : List ℕ
star = b'*' ∷ []

are_entries : All IsEntry (a ∷ star ∷ [])
unfolding is_empty trim_blanks pop_while erase_while
are_entries = ((refl, (refl, tt), refl), ((refl, (refl, tt), refl), tt))

matches_no_proxy_iff_example :
    (matches_no_proxy scheme (no_proxy_text (a ∷ star ∷ [])) ≡ true)
    ↔ Exempts scheme (a ∷ star ∷ [])
matches_no_proxy_iff_example = matches_no_proxy_iff scheme a (star ∷ []) are_entries

-- A head that announces twelve bytes.
abbrev head : List ℕ
head =
    b'H' ∷ b'T' ∷ b'T' ∷ b'P' ∷ b'/' ∷ b'1' ∷ b'.' ∷ b'1' ∷ b' ' ∷ b'2' ∷ b'0' ∷ b'0' ∷ b' ' ∷ b'O'
    ∷ b'K' ∷ 13 ∷ 10 ∷ b'C' ∷ b'o' ∷ b'n' ∷ b't' ∷ b'e' ∷ b'n' ∷ b't' ∷ b'-' ∷ b'L' ∷ b'e' ∷ b'n'
    ∷ b'g' ∷ b't' ∷ b'h' ∷ b':' ∷ b' ' ∷ b'1' ∷ b'2' ∷ 13 ∷ 10 ∷ b'A' ∷ b':' ∷ b' ' ∷ b'b' ∷ []

abbrev body : List ℕ
body = 0 ∷ 7 ∷ 1 ∷ 0 ∷ 0 ∷ 0 ∷ 0 ∷ 0 ∷ 0 ∷ 0 ∷ 0 ∷ 0 ∷ []

-- The end of the head comes in two reads.
abbrev chunks : List (List ℕ)
chunks =
    (head ++ (13 ∷ 10 ∷ []))
    ∷ (13 ∷ 10 ∷ 0 ∷ 7 ∷ [])
    ∷ (1 ∷ 0 ∷ 0 ∷ 0 ∷ 0 ∷ 0 ∷ 0 ∷ 0 ∷ 0 ∷ 0 ∷ [])
    ∷ []

whole_splits : split_text head_end (concat chunks) ≡ (head, some body)
unfolding split_text strip_prefix
whole_splits = refl

announced : content_length head 0 ≡ ok 12
unfolding content_length split_text strip_prefix stoul signed magnitude digits_value drop_spaces
    is_space
announced = refl

-- What an earlier answer left in memory.
abbrev stale : ℕ → ℕ
stale k = 255

read_response_complete_example :
    read_response stale (reads_of chunks (failed ∷ [])) ≡ answer_of head (parse body)
read_response_complete_example =
    read_response_complete stale head body chunks (failed ∷ []) whole_splits announced (omega arith)

abbrev short_chunks : List (List ℕ)
short_chunks = (head ++ (13 ∷ 10 ∷ [])) ∷ (13 ∷ 10 ∷ 0 ∷ 7 ∷ []) ∷ []

abbrev ready : Connection
ready = record { connected = true; in_use = false }

abbrev pool : UpstreamPool
pool = record {
  connections = new_connection ∷ ready ∷ new_connection ∷ [];
  next_conn = 5;
  errors = 9;
  successes = 3;
  last_error_ratio = 0;
}

get_next_connection-Takes_example : Gives (Takes pool.connections) (get_next_connection pool)
get_next_connection-Takes_example = get_next_connection-Takes pool (omega arith)

maintain-IsSized_example : All IsSized (maintain (pool ∷ pool ∷ []))
maintain-IsSized_example = maintain-IsSized (pool ∷ pool ∷ []) (is_sized, (is_sized, tt))
  where
    is_sized : IsSized pool
    is_sized = (omega arith, omega arith, omega arith)

held-failed_calls_example :
    held (failed_calls {Reply = ℕ} (λ i. none) 2 pool.connections)
    ≡ held pool.connections + min 2 (idle pool.connections - 1)
held-failed_calls_example = held-failed_calls {Reply = ℕ} (λ i. none) 2 pool.connections

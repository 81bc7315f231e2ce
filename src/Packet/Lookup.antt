-- ===== src/Packet/Lookup.antt =====
-- The typed lookups of sub headers in common/packet.cpp: `sub_header_get_uint8`,
-- `sub_header_get_uint32` and `sub_eader_get_string`. Each takes the first sub header of the type.
pub mod Agree
use scalable_tcp_server.Base.{
  ℕ, ◌+◌, List, [], ◌∷◌, length, take, drop, leb, not, ◌==◌, if◌then◌else◌, Option, none, some,
  Outcome, done, fault, ◌>>=◌,
}
use scalable_tcp_server.Word.{Host, ntohl}
use scalable_tcp_server.Packet.{
  Packet, Span, SubHeader, SubHeaderType, same_sub_header, byte_at, read32,
}

-- The bytes of a span; a span that leaves the buffer is undefined behaviour to read.
unfoldable pub read_span : List ℕ → Span → Outcome (List ℕ)
read_span buffer s =
    if leb (s.offset + s.size) (length buffer)
    then done (take s.size (drop s.offset buffer))
    else fault

unfoldable pub find_uint8 : List ℕ → SubHeaderType → List SubHeader → Outcome (Option ℕ)
find_uint8 buffer type [] = done none
find_uint8 buffer type (sub ∷ rest) =
    if same_sub_header sub.type type
    then (if not (sub.value.size == 1)
        then done none
        else (byte_at buffer sub.value.offset >>= λ value. done (some value)))
    else find_uint8 buffer type rest

unfoldable pub sub_header_get_uint8 : Packet → SubHeaderType → Outcome (Option ℕ)
unfolding find_uint8
sub_header_get_uint8 p type = find_uint8 p.buffer type p.headers

unfoldable pub find_uint32 : Host → List ℕ → SubHeaderType → List SubHeader → Outcome (Option ℕ)
find_uint32 host buffer type [] = done none
find_uint32 host buffer type (sub ∷ rest) =
    if same_sub_header sub.type type
    then (if not (sub.value.size == 4)
        then done none
        else (read32 host buffer sub.value.offset >>= λ value. done (some (ntohl host value))))
    else find_uint32 host buffer type rest

unfoldable pub sub_header_get_uint32 : Host → Packet → SubHeaderType → Outcome (Option ℕ)
unfolding find_uint32
sub_header_get_uint32 host p type = find_uint32 host p.buffer type p.headers

unfoldable pub find_string : List ℕ → SubHeaderType → List SubHeader → Outcome (Option (List ℕ))
unfolding read_span
find_string buffer type [] = done none
find_string buffer type (sub ∷ rest) =
    if same_sub_header sub.type type
    then (read_span buffer sub.value >>= λ value. done (some value))
    else find_string buffer type rest

unfoldable pub sub_header_get_string : Packet → SubHeaderType → Outcome (Option (List ℕ))
unfolding find_string
sub_header_get_string p type = find_string p.buffer type p.headers

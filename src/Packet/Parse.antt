-- ===== src/Packet/Parse.antt =====
-- The constructor `Packet::Packet` and `parseSubHeaders` of common/packet.cpp.
pub mod Reads
pub mod Guards
pub mod Shape
pub mod Rounds
pub mod Tiles
pub mod Safety
use scalable_tcp_server.Base.{
  ℕ, zero, suc, ◌+◌, ◌-◌, List, [], ◌∷◌, ◌++◌, length, ltb, ◌==◌, not, ◌||◌, if◌then◌else◌, Outcome,
  done, stuck, throw_if, ◌>>=◌, ◌>>◌,
}
use scalable_tcp_server.Word.{Host, u16, u32, sub64, ntohs, ntohl}
use scalable_tcp_server.Packet.{
  PacketVersion, PacketType, PacketFlags, SubHeaderType, same_version, same_type, same_flags,
  same_sub_header, max_header_size, max_payload_size, offset_version, offset_packet_type,
  offset_header_size, offset_flags, offset_sequence_id, offset_headers, Span, SubHeader, Packet,
  byte_at, read16, read32, packet_version_from_byte, packet_type_from_byte, packet_flags_from_bytes,
  sub_header_from_byte,
}

module _ (host : Host) (buffer : List ℕ) (header_size : ℕ) where
  -- One round of the loop in `parseSubHeaders`: the sub header at `count`, and the next `count`. The
  -- differences in the first two guards are compared as size_t and wrap; the one in the last guard is
  -- compared as int, and is written here as a sum.
  unfoldable pub sub_header_at : ℕ → Outcome (SubHeader × ℕ)
  sub_header_at count = do
    throw_if (ltb (sub64 header_size count) 2) "Incomplete SubHeaderSize"
    sub_header_size ← read16 host buffer (offset_headers + count)
    throw_if (ltb max_header_size sub_header_size) "Invalid sub header size"
    let at_type = u16 (count + 2)
    throw_if (ltb (sub64 header_size at_type) 1) "Incomplete SubHeaderType"
    sub_header_type ← byte_at buffer (offset_headers + at_type)
    throw_if (same_sub_header (sub_header_from_byte sub_header_type) SubHeaderType.unknown)
        "Invalid SubHeaderType"
    let at_value = u16 (at_type + 1)
    throw_if (ltb header_size (at_value + sub_header_size)) "Incomplete SubHeaderValue"
    done (
      record {
        size = sub_header_size;
        type = sub_header_from_byte sub_header_type;
        value = record { offset = offset_headers + at_value; size = sub_header_size };
      },
      u16 (at_value + sub_header_size),
    )

  -- The loop, on fuel.
  unfoldable pub sub_headers_loop : ℕ → ℕ → List SubHeader → Outcome (List SubHeader × ℕ)
  sub_headers_loop zero count headers =
      if ltb count header_size then stuck else done (headers, count)
  sub_headers_loop (suc fuel) count headers =
      let round =
        sub_header_at count >>= λ (sub, next). sub_headers_loop fuel next (headers ++ sub ∷ []) in
      if ltb count header_size then round else done (headers, count)

  -- Every round takes three bytes at least, so `header_size` rounds are enough.
  unfoldable pub parse_sub_headers : Outcome (List SubHeader)
  parse_sub_headers = do
    (headers, count) ← sub_headers_loop header_size 0 []
    throw_if (not (count == header_size)) "Invalid header size"
    done headers

unfoldable pub parse : Host → List ℕ → Outcome Packet
parse host bytes = do
  let packet_size = u32 (length bytes)
  throw_if (ltb packet_size offset_headers) "Packet size error"
  version_byte ← byte_at bytes offset_version
  let version = packet_version_from_byte version_byte
  throw_if (same_version version PacketVersion.unknown) "Version Error"
  type_byte ← byte_at bytes offset_packet_type
  let packet_type = packet_type_from_byte type_byte
  throw_if (same_type packet_type PacketType.unknown) "packet type error"
  header_size_ ← read16 host bytes offset_header_size
  let header_size = ntohs host header_size_
  throw_if (ltb max_header_size header_size || ltb packet_size header_size) "Header size error"
  flags_ ← read16 host bytes offset_flags
  let flags = packet_flags_from_bytes (ntohs host flags_)
  throw_if (not (same_flags flags PacketFlags.none)) "Packet flags error"
  sequence_id_ ← read32 host bytes offset_sequence_id
  let sequence_id = ntohl host sequence_id_
  let offset_payload = offset_headers + header_size
  throw_if (ltb packet_size offset_payload) "Offset payload error"
  let payload_size = packet_size - offset_payload
  throw_if (ltb max_payload_size payload_size) "Payload size error"
  headers ← parse_sub_headers host bytes header_size
  done (record {
    packet_size = packet_size;
    version = version;
    packet_type = packet_type;
    header_size = header_size;
    flags = flags;
    sequence_id = sequence_id;
    offset_payload = offset_payload;
    payload_size = payload_size;
    buffer = bytes;
    headers = headers;
  })

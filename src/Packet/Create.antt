-- ===== src/Packet/Create.antt =====
-- `Packet::create` of common/packet.cpp, and the buffers that an outgoing packet hands to asio.
pub mod Layout
use scalable_tcp_server.Base.{
  ℕ, zero, suc, ◌+◌, List, [], ◌∷◌, ◌++◌, length, set, replicate, ltb, not, Outcome, done, throw_if,
  ◌>>=◌, ◌>>◌,
}
use scalable_tcp_server.Word.{Host, u16, u32, store16, store32, htons, htonl}
use scalable_tcp_server.Packet.{
  PacketVersion, PacketType, PacketFlags, same_version, same_type, same_flags, max_header_size,
  max_payload_size, offset_version, offset_packet_type, offset_header_size, offset_flags,
  offset_sequence_id, offset_headers, packet_version_to_byte, packet_type_to_byte,
  packet_flags_to_bytes,
}

pub record OutgoingPacket : Type 0 where
  pub fields : List ℕ
  pub headers : List ℕ
  pub payload : List ℕ

-- The three buffers that are sent, in this order.
abbrev pub buffers : OutgoingPacket → List (List ℕ)
buffers p = p.fields ∷ p.headers ∷ p.payload ∷ []

-- The bytes that go out for a packet: its buffers, one behind the other.
abbrev pub gather : List (List ℕ) → List ℕ
gather [] = []
gather (b ∷ bs) = b ++ gather bs

-- `std::memcpy` of some bytes into a vector.
abbrev pub write_bytes : List ℕ → ℕ → List ℕ → List ℕ
write_bytes fields at [] = fields
write_bytes fields at (b ∷ bs) = write_bytes (set fields at b) (suc at) bs

unfoldable pub create :
    Host → PacketVersion → PacketType → PacketFlags → ℕ → List ℕ → List ℕ → Outcome OutgoingPacket
create host version type flags sequence_id headers payload = do
  throw_if (same_version version PacketVersion.unknown) "Invalid packet version"
  let version_ = packet_version_to_byte version
  throw_if (same_type type PacketType.unknown) "Invalid packet type"
  let type_ = packet_type_to_byte type
  throw_if (ltb max_header_size (length headers)) "Header size exceeds the maximum allowed"
  let header_size_ = u16 (length headers)
  throw_if (not (same_flags flags PacketFlags.none)) "Invalid packet flags"
  let flags_ = packet_flags_to_bytes flags
  throw_if (ltb max_payload_size (length payload)) "Payload size exceeds the maximum allowed"
  let payload_size_ = u32 (length payload)
  let packet_size_ = u32 (offset_headers + header_size_ + payload_size_)
  let fields = replicate offset_headers 0
  let fields = write_bytes fields 0 (store32 host (htonl host packet_size_))
  let fields = write_bytes fields offset_packet_type (type_ ∷ [])
  let fields = write_bytes fields offset_version (version_ ∷ [])
  let fields = write_bytes fields offset_header_size (store16 host (htons host header_size_))
  let fields = write_bytes fields offset_flags (store16 host (htons host flags_))
  let fields = write_bytes fields offset_sequence_id (store32 host (htonl host sequence_id))
  done (record { fields = fields; headers = headers; payload = payload })

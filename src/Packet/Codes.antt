-- ===== src/Packet/Codes.antt =====
-- The converters of common/packet.cpp between enumerators and bytes.
use scalable_tcp_server.Base.{ℕ, ◌≡◌, ◌≢◌, ◌↔◌, arith}
use scalable_tcp_server.Packet.{
  PacketType, SubHeaderType, packet_type_to_byte, packet_type_from_byte, sub_header_to_byte,
  sub_header_from_byte,
}

-- A packet type is read back from the byte that it is written as exactly if it is neither `Auth` nor
-- `Account`.
pub packet_type_from_byte-to_byte :
    (t : PacketType)
    → (packet_type_from_byte (packet_type_to_byte t) ≡ t)
      ↔ ((t ≢ PacketType.auth) × (t ≢ PacketType.account))
unfolding packet_type_from_byte packet_type_to_byte
packet_type_from_byte-to_byte PacketType.unknown = ground arith
packet_type_from_byte-to_byte PacketType.auth = ground arith
packet_type_from_byte-to_byte PacketType.account = ground arith
packet_type_from_byte-to_byte PacketType.text = ground arith
packet_type_from_byte-to_byte PacketType.file = ground arith
packet_type_from_byte-to_byte PacketType.video = ground arith

-- No byte is read as an authentication or account packet.
pub packet_type_from_byte-ne-auth :
    (b : ℕ)
    → (packet_type_from_byte b ≢ PacketType.auth) × (packet_type_from_byte b ≢ PacketType.account)
unfolding packet_type_from_byte
packet_type_from_byte-ne-auth b = ground arith

pub sub_header_from_byte-ne-action : (b : ℕ) → sub_header_from_byte b ≢ SubHeaderType.action
unfolding sub_header_from_byte
sub_header_from_byte-ne-action b = ground arith

-- A byte that is read as a known sub header type is the byte that this type is written as.
sub_header_to_byte-from_byte :
    (b : ℕ)
    → sub_header_from_byte b ≢ SubHeaderType.unknown
    → sub_header_to_byte (sub_header_from_byte b) ≡ b
unfolding sub_header_from_byte sub_header_to_byte
sub_header_to_byte-from_byte b h = ground arith

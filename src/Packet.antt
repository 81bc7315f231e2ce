-- ===== src/Packet.antt =====
-- common/packet.hpp and common/packet.cpp: the packet, its limits, and the converters between
-- enumerators and bytes. `create` is in Packet/Create, the constructor in Packet/Parse.
mod Enums
pub mod Codes
pub mod Create
pub mod Parse
pub mod Encode
pub mod RoundTrip
pub mod NetworkOrder
pub mod Accessors
pub mod Lookup
mod Runs
pub use Enums.*
use scalable_tcp_server.Base.{
  ℕ, ◌+◌, ◌*◌, List, Outcome, done, fault, ◌>>=◌, Option, none, some, get_elem?, ◌==◌,
  if◌then◌else◌,
}
use scalable_tcp_server.Word.{Host, load16, load32}

-- Used by the reader: the size of the length field.
abbrev pub packet_length : ℕ
packet_length = 4

abbrev pub max_header_size : ℕ
max_header_size = 1024

abbrev pub max_payload_size : ℕ
max_payload_size = 1024 * 1024

abbrev pub max_packet_size : ℕ
max_packet_size = max_header_size + max_payload_size

abbrev pub offset_version : ℕ
offset_version = 4

abbrev pub offset_packet_type : ℕ
offset_packet_type = 5

abbrev pub offset_header_size : ℕ
offset_header_size = 6

abbrev pub offset_flags : ℕ
offset_flags = 8

abbrev pub offset_sequence_id : ℕ
offset_sequence_id = 10

abbrev pub offset_headers : ℕ
offset_headers = 14

-- A `std::span` into the packet's buffer: where it starts, and how many bytes it holds.
pub record Span : Type 0 where
  pub offset : ℕ
  pub size : ℕ

pub record SubHeader : Type 0 where
  pub size : ℕ
  pub type : SubHeaderType
  pub value : Span

-- The member `headers_size_` is never set or read, and is left out.
pub record Packet : Type 0 where
  pub packet_size : ℕ
  pub version : PacketVersion
  pub packet_type : PacketType
  pub header_size : ℕ
  pub flags : PacketFlags
  pub sequence_id : ℕ
  pub offset_payload : ℕ
  pub payload_size : ℕ
  pub buffer : List ℕ
  pub headers : List SubHeader

-- A read of one byte; outside the buffer it is undefined behaviour.
unfoldable pub byte_at : List ℕ → ℕ → Outcome ℕ
byte_at buffer i = elim (get_elem? buffer i) [ none ↦ fault | some b ↦ done b ]

-- `std::memcpy` of two or four bytes of the buffer into a word of the host.
unfoldable pub read16 : Host → List ℕ → ℕ → Outcome ℕ
unfolding byte_at
read16 host buffer i = do a ← byte_at buffer i; b ← byte_at buffer (i + 1); done (load16 host a b)

unfoldable pub read32 : Host → List ℕ → ℕ → Outcome ℕ
unfolding byte_at
read32 host buffer i = do
  a ← byte_at buffer i
  b ← byte_at buffer (i + 1)
  c ← byte_at buffer (i + 2)
  d ← byte_at buffer (i + 3)
  done (load32 host a b c d)

unfoldable pub packet_version_to_byte : PacketVersion → ℕ
packet_version_to_byte PacketVersion.v1 = 1
packet_version_to_byte PacketVersion.unknown = 0

unfoldable pub packet_version_from_byte : ℕ → PacketVersion
packet_version_from_byte version = if version == 1 then PacketVersion.v1 else PacketVersion.unknown

unfoldable pub packet_type_to_byte : PacketType → ℕ
packet_type_to_byte PacketType.text = 1
packet_type_to_byte PacketType.file = 2
packet_type_to_byte PacketType.video = 3
packet_type_to_byte _ = 0

unfoldable pub packet_type_from_byte : ℕ → PacketType
packet_type_from_byte type =
    if type == 1
    then PacketType.text
    else if type == 2
    then PacketType.file
    else if type == 3
    then PacketType.video
    else PacketType.unknown

-- Both converters of the flags ignore their argument.
unfoldable pub packet_flags_to_bytes : PacketFlags → ℕ
packet_flags_to_bytes flags = 0

unfoldable pub packet_flags_from_bytes : ℕ → PacketFlags
packet_flags_from_bytes flags = PacketFlags.none

unfoldable pub sub_header_to_byte : SubHeaderType → ℕ
sub_header_to_byte SubHeaderType.session_id = 10
sub_header_to_byte SubHeaderType.user_id = 11
sub_header_to_byte SubHeaderType.auth_token = 12
sub_header_to_byte _ = 0

unfoldable pub sub_header_from_byte : ℕ → SubHeaderType
sub_header_from_byte byte =
    if byte == 10
    then SubHeaderType.session_id
    else if byte == 11
    then SubHeaderType.user_id
    else if byte == 12
    then SubHeaderType.auth_token
    else SubHeaderType.unknown

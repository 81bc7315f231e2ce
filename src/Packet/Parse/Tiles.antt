-- ===== src/Packet/Parse/Tiles.antt =====
-- The header area as the comment of common/packet.hpp draws it: sub headers one behind the other,
-- each a size of two bytes, a type of one byte, and a value.
use scalable_tcp_server.Base.{ℕ, ◌+◌, ◌≤◌, ◌≡◌, ◌≢◌, List, [], ◌∷◌, done}
use scalable_tcp_server.Word.{Host}
use scalable_tcp_server.Packet.{
  SubHeader, SubHeaderType, byte_at, read16, max_header_size, offset_headers, sub_header_from_byte,
}

-- `s` stands at `count` bytes into the header area.
pub record StandsAt (host : Host) (buffer : List ℕ) (count : ℕ) (s : SubHeader) : Type 0 where
  pub size_read : read16 host buffer (offset_headers + count) ≡ done s.size
  pub size_fits : s.size ≤ max_header_size
  pub type_byte : ℕ
  pub type_read : byte_at buffer (offset_headers + (count + 2)) ≡ done type_byte
  pub type_lem : sub_header_from_byte type_byte ≡ s.type
  pub known : s.type ≢ SubHeaderType.unknown
  pub value_at : s.value.offset ≡ offset_headers + (count + 3)
  pub value_whole : s.value.size ≡ s.size

-- The sub headers fill the area from `count` to `header_size`, with no gap and nothing left over.
abbrev pub Tiles : Host → List ℕ → ℕ → ℕ → List SubHeader → Type 0
Tiles host buffer header_size count [] = count ≡ header_size
Tiles host buffer header_size count (s ∷ ss) =
    StandsAt host buffer count s × Tiles host buffer header_size (count + 3 + s.size) ss

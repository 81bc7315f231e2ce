-- ===== src/Packet/Enums.antt =====
-- common/packet_enums.hpp and common/sub_header_type.hpp: the enumerations, with the numbers that
-- the source gives their enumerators. Two enumerators are equal if their numbers are.
use scalable_tcp_server.Base.{ℕ, Bool, ◌==◌}

pub data PacketVersion : Type 0 where
  unknown v1 : PacketVersion

abbrev pub version_value : PacketVersion → ℕ
version_value unknown = 0
version_value v1 = 1

pub data PacketType : Type 0 where
  unknown auth account text file video : PacketType

abbrev pub packet_type_value : PacketType → ℕ
packet_type_value unknown = 0
packet_type_value auth = 1
packet_type_value account = 2
packet_type_value text = 3
packet_type_value file = 4
packet_type_value video = 5

-- `PacketFlags::None` is the one enumerator.
pub data PacketFlags : Type 0 where
  none : PacketFlags

abbrev pub flags_value : PacketFlags → ℕ
flags_value none = 0

pub data SubHeaderType : Type 0 where
  unknown action session_id user_id auth_token : SubHeaderType

abbrev pub sub_header_value : SubHeaderType → ℕ
sub_header_value unknown = 0
sub_header_value action = 1
sub_header_value session_id = 10
sub_header_value user_id = 11
sub_header_value auth_token = 12

abbrev pub same_version : PacketVersion → PacketVersion → Bool
same_version a b = version_value a == version_value b

abbrev pub same_type : PacketType → PacketType → Bool
same_type a b = packet_type_value a == packet_type_value b

abbrev pub same_flags : PacketFlags → PacketFlags → Bool
same_flags a b = flags_value a == flags_value b

abbrev pub same_sub_header : SubHeaderType → SubHeaderType → Bool
same_sub_header a b = sub_header_value a == sub_header_value b

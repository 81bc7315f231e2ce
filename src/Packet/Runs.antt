-- ===== src/Packet/Runs.antt =====
-- Concrete packets, and the theorems at concrete inputs.
use scalable_tcp_server.Base.{
  ◌≢◌, ℕ, ◌≤◌, ◌≡◌, refl, ◌↔◌, List, [], ◌∷◌, length, Option, done, throws, take, ◌++◌, Outcome,
  invalid_argument, IsDefined, Exception, arith,
}
use scalable_tcp_server.Word.{little, big, load16, load32, store16, ntohs, ntohl}
use scalable_tcp_server.Packet.{
  Packet, PacketVersion, PacketType, PacketFlags, SubHeaderType, offset_headers, byte_at, read16,
  read32, packet_version_from_byte, packet_type_from_byte, packet_type_to_byte,
  packet_flags_from_bytes, sub_header_from_byte, sub_header_to_byte,
}
use scalable_tcp_server.Packet.Codes.{packet_type_from_byte-to_byte}
use scalable_tcp_server.Packet.Create.{OutgoingPacket, create}
use scalable_tcp_server.Packet.Create.Layout.{created, IsAccepted, create-done_iff}
use scalable_tcp_server.Packet.Parse.{parse, parse_sub_headers, sub_headers_loop, sub_header_at}
use scalable_tcp_server.Packet.Parse.Tiles.{Tiles}
use scalable_tcp_server.Packet.Parse.Safety.{parse_sub_headers-done_iff}
use scalable_tcp_server.Packet.Parse.Guards.{parse-IsDefined}
use scalable_tcp_server.Packet.Parse.Shape.{IsReadAs, parse-done_iff}
use scalable_tcp_server.Packet.Encode.{Entry, encode_all}
use scalable_tcp_server.Packet.RoundTrip.{wire, received, IsSendable, parse-create}
use scalable_tcp_server.Packet.NetworkOrder.{network_order-throws}
use scalable_tcp_server.Packet.Accessors.{headers, payload, spans_lem}
use scalable_tcp_server.Auth.{LoginRequest}
use scalable_tcp_server.Auth.Handler.{deserialize_login_request}
use scalable_tcp_server.Packet.Lookup.{
  sub_header_get_string, sub_header_get_uint8, sub_header_get_uint32,
}
use scalable_tcp_server.Packet.Lookup.Agree.{decode8, decode32, lookups_agree}

-- A text packet with a user id of four bytes and a payload of two.
abbrev user_seven : Entry
user_seven = record { type = SubHeaderType.user_id; value = 0 ∷ 0 ∷ 1 ∷ 7 ∷ [] }

abbrev hello : List ℕ
hello =
    0 ∷ 0 ∷ 0 ∷ 23 ∷ 1 ∷ 1 ∷ 0 ∷ 7 ∷ 0 ∷ 0 ∷ 0 ∷ 0 ∷ 1 ∷ 2 ∷ 4 ∷ 0 ∷ 11 ∷ 0 ∷ 0 ∷ 1 ∷ 7 ∷ 104 ∷ 105
    ∷ []

abbrev hello_packet : Packet
hello_packet = received PacketType.text 258 7 (user_seven ∷ []) (104 ∷ 105 ∷ []) hello

parse-hello : parse little hello ≡ done hello_packet
unfolding parse parse_sub_headers sub_headers_loop sub_header_at byte_at read16 read32 load16 load32
    ntohs ntohl packet_version_from_byte packet_type_from_byte packet_flags_from_bytes
    sub_header_from_byte
parse-hello = refl

-- The same bytes on a big-endian host: the size 4 is read as 1024.
parse-hello_big : parse big hello ≡ throws (invalid_argument "Incomplete SubHeaderValue")
unfolding parse parse_sub_headers sub_headers_loop sub_header_at byte_at read16 read32 load16 load32
    ntohs ntohl packet_version_from_byte packet_type_from_byte packet_flags_from_bytes
    sub_header_from_byte
parse-hello_big = refl

hello-IsSendable : IsSendable little PacketType.text 258 (user_seven ∷ []) (104 ∷ 105 ∷ [])
unfolding store16 sub_header_to_byte
hello-IsSendable = record {
  known = λ e. cc;
  not_auth = λ e. cc;
  not_account = λ e. cc;
  word = omega arith;
  entries_lem = (record { known = λ e. cc; written = λ e. cc; bytes = omega arith }, tt);
  header_fits = omega arith;
  payload_fits = omega arith;
  payload_bytes = omega arith;
}

-- The same sub header with its size in network order.
hello-IsSendable_big : IsSendable big PacketType.text 258 (user_seven ∷ []) (104 ∷ 105 ∷ [])
unfolding store16 sub_header_to_byte
hello-IsSendable_big = record {
  known = λ e. cc;
  not_auth = λ e. cc;
  not_account = λ e. cc;
  word = omega arith;
  entries_lem = (record { known = λ e. cc; written = λ e. cc; bytes = omega arith }, tt);
  header_fits = omega arith;
  payload_fits = omega arith;
  payload_bytes = omega arith;
}

network_order-throws_example :
    (pkt : OutgoingPacket) × (create little PacketVersion.v1 PacketType.text PacketFlags.none 258
        (encode_all big (user_seven ∷ []))
        (104 ∷ 105 ∷ [])
      ≡ done pkt)
    × ((e : Exception) × (parse little (wire pkt) ≡ throws e))
    × ((p : Packet) × (parse big (wire pkt) ≡ done p))
unfolding store16
network_order-throws_example =
    network_order-throws PacketType.text 258 user_seven [] (104 ∷ 105 ∷ []) hello-IsSendable_big
      (omega arith) (omega arith) (omega arith) little

parse-create_example :
    (pkt : OutgoingPacket) × (create big PacketVersion.v1 PacketType.text PacketFlags.none 258
        (encode_all little (user_seven ∷ []))
        (104 ∷ 105 ∷ [])
      ≡ done pkt)
    × (wire pkt ≡ hello)
    × (parse little (wire pkt) ≡ done hello_packet)
unfolding store16 sub_header_to_byte packet_type_to_byte
parse-create_example =
    parse-create little PacketType.text 258 (user_seven ∷ []) (104 ∷ 105 ∷ []) hello-IsSendable big

parse-IsDefined_example : IsDefined (parse little hello)
parse-IsDefined_example = parse-IsDefined little hello (omega arith)

parse-done_iff_example :
    (parse little hello ≡ done hello_packet)
    ↔ ((offset_headers ≤ length hello) × IsReadAs little hello hello_packet)
parse-done_iff_example = parse-done_iff little hello (omega arith) hello_packet

create-done_iff_example :
    (create little PacketVersion.v1 PacketType.auth PacketFlags.none 1 [] []
      ≡ done (created PacketType.auth 1 [] []))
    ↔ (IsAccepted PacketVersion.v1 PacketType.auth [] []
        × (created PacketType.auth 1 [] [] ≡ created PacketType.auth 1 [] []))
create-done_iff_example =
    create-done_iff little PacketVersion.v1 PacketType.auth PacketFlags.none 1 [] []
      (created PacketType.auth 1 [] []) (omega arith)

lookups_agree_example :
    (o : Option (List ℕ)) × (sub_header_get_string hello_packet SubHeaderType.user_id ≡ done o)
    × (sub_header_get_uint8 hello_packet SubHeaderType.user_id ≡ done (decode8 o))
    × (sub_header_get_uint32 little hello_packet SubHeaderType.user_id ≡ done (decode32 o))
lookups_agree_example =
    lookups_agree little hello hello_packet SubHeaderType.user_id (omega arith) parse-hello

packet_type_from_byte-to_byte_example :
    (packet_type_from_byte (packet_type_to_byte PacketType.file) ≡ PacketType.file)
    ↔ ((PacketType.file ≢ PacketType.auth) × (PacketType.file ≢ PacketType.account))
packet_type_from_byte-to_byte_example = packet_type_from_byte-to_byte PacketType.file

-- The header area of `hello`.
parse_sub_headers-done_iff_example :
    (parse_sub_headers little hello 7 ≡ done hello_packet.headers)
    ↔ Tiles little hello 7 0 hello_packet.headers
parse_sub_headers-done_iff_example =
    parse_sub_headers-done_iff little hello (omega arith) 7 (omega arith) (omega arith)
      hello_packet.headers

-- The text of the user id and the payload of `hello`.
spans_lem_example :
    (take offset_headers hello ++ (take 7 (headers hello_packet) ++ take 2 (payload hello_packet))
      ≡ hello)
    × (length (take 7 (headers hello_packet)) ≡ 7)
    × (length (take 2 (payload hello_packet)) ≡ 2)
    × ((deserialize : List ℕ → Outcome LoginRequest)
        → deserialize_login_request deserialize hello_packet
          ≡ deserialize (take 2 (payload hello_packet)))
spans_lem_example = spans_lem little hello hello_packet (omega arith) (omega arith) parse-hello

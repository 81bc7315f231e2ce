-- ===== src/Packet/RoundTrip.antt =====
-- A packet that `create` made, as the constructor on the other side reads it.
use scalable_tcp_server.Base.{
  ℕ, ◌+◌, ◌^◌, ◌≤◌, ◌<◌, ◌≡◌, ◌≢◌, refl, sym, ap, List, ◌++◌, append-nil, length, length-append,
  All, All-append, done, arith,
}
use native.Mathlib.Nat.{zero-add}
use scalable_tcp_server.Packet.Parse.Tiles.{Tiles}
use scalable_tcp_server.Word.{Host, IsByte}
use scalable_tcp_server.Packet.{
  Packet, PacketVersion, PacketType, PacketFlags, byte_at, max_header_size, max_payload_size,
  offset_headers, packet_type_to_byte,
}
use scalable_tcp_server.Packet.Codes.{packet_type_from_byte-to_byte}
use scalable_tcp_server.Packet.Create.{OutgoingPacket, buffers, gather, create}
use scalable_tcp_server.Packet.Create.Layout.{layout, created, create-eq_done}
use scalable_tcp_server.Packet.Parse.{parse}
use scalable_tcp_server.Packet.Parse.Shape.{IsReadAs, parse-done_iff}
use scalable_tcp_server.Packet.Encode.{
  Entry, IsEntry, encode_all, placed, encode_all-IsByte, Tiles-placed,
}

-- The bytes on the wire.
abbrev pub wire : OutgoingPacket → List ℕ
wire p = gather (buffers p)

abbrev pub received : PacketType → ℕ → ℕ → List Entry → List ℕ → List ℕ → Packet
received type sequence_id header_size entries payload bytes = record {
  packet_size = offset_headers + header_size + length payload;
  version = PacketVersion.v1;
  packet_type = type;
  header_size = header_size;
  flags = PacketFlags.none;
  sequence_id = sequence_id;
  offset_payload = offset_headers + header_size;
  payload_size = length payload;
  buffer = bytes;
  headers = placed 0 entries;
}

-- What a sender can ask for so that it is read back: a type that has a byte, sub headers with types that
-- have a byte and are read, which `Action` is not, and sizes within the limits.
pub record IsSendable (host : Host) (type : PacketType) (sequence_id : ℕ) (entries : List Entry)
    (payload : List ℕ) : Type 0 where
  pub known : type ≢ PacketType.unknown
  pub not_auth : type ≢ PacketType.auth
  pub not_account : type ≢ PacketType.account
  pub word : sequence_id < 2 ^ 32
  pub entries_lem : All IsEntry entries
  pub header_fits : length (encode_all host entries) ≤ max_header_size
  pub payload_fits : length payload ≤ max_payload_size
  pub payload_bytes : All IsByte payload

type-IsByte : (type : PacketType) → IsByte (packet_type_to_byte type)
unfolding packet_type_to_byte
type-IsByte PacketType.unknown = omega arith
type-IsByte PacketType.auth = omega arith
type-IsByte PacketType.account = omega arith
type-IsByte PacketType.text = omega arith
type-IsByte PacketType.file = omega arith
type-IsByte PacketType.video = omega arith

module _ (receiver : Host) (type : PacketType) (sequence_id : ℕ) (entries : List Entry)
    (payload : List ℕ) (s : IsSendable receiver type sequence_id entries payload) where
  abbrev pub headers : List ℕ
  headers = encode_all receiver entries

  abbrev pub fields : List ℕ
  fields = layout type sequence_id (length headers) (length payload)

  abbrev pub bytes : List ℕ
  bytes = fields ++ (headers ++ payload)

  pub bytes-IsByte : All IsByte bytes
  bytes-IsByte =
      All-append IsByte fields (headers ++ payload)
        (omega (arith, type-IsByte type, s.header_fits, s.payload_fits, s.word))
        (All-append IsByte headers payload (encode_all-IsByte receiver entries s.entries_lem)
          s.payload_bytes)

  tiles : Tiles receiver bytes (length headers) 0 (placed 0 entries)
  tiles =
      rw zero-add at
        (Tiles-placed receiver entries fields payload 0 s.entries_lem s.header_fits refl)

  pub is_packet :
      IsReadAs receiver bytes (received type sequence_id (length headers) entries payload bytes)
  unfolding byte_at
  is_packet = record {
    size_lem = omega (arith, length-append headers payload, s.header_fits, s.payload_fits);
    version_read = refl;
    version_lem = refl;
    type_byte = packet_type_to_byte type;
    type_read = refl;
    type_lem = sym ((packet_type_from_byte-to_byte type).1 (s.not_auth, s.not_account));
    type_known = s.known;
    header_size_read = (_, _, refl, refl, omega arith);
    header_size_fits = s.header_fits;
    flags_lem = refl;
    sequence_id_read = (_, _, _, _, refl, refl, refl, refl, omega arith);
    payload_at = refl;
    payload_size_lem = refl;
    payload_fits = s.payload_fits;
    buffer_lem = refl;
    headers_tile = tiles;
  }

  -- For a type other than `Unknown`, `Auth` and `Account`, a 32-bit sequence id, sub headers of
  -- known types other than `Action`, each with its size written in the byte order of the receiving
  -- host, and a header area and a payload of bytes within the limits: `create` on any host makes a
  -- packet with the version 1 and no flags, and the constructor on the receiving host reads back
  -- from its bytes the type, the sequence id, the sub headers and the place and size of the
  -- payload.
  pub parse-create :
      (sender : Host)
      → (pkt : OutgoingPacket) × (create sender PacketVersion.v1 type PacketFlags.none sequence_id
            headers payload
          ≡ done pkt)
        × (wire pkt ≡ bytes)
        × (parse receiver (wire pkt)
            ≡ done (received type sequence_id (length headers) entries payload bytes))
  parse-create sender = (
    created type sequence_id headers payload,
    create-eq_done sender type PacketFlags.none sequence_id headers payload s.known s.word
        s.header_fits s.payload_fits,
    same,
    rw same ((parse-done_iff receiver bytes bytes-IsByte _).1 (omega arith, is_packet)),
  )
    where
      same : wire (created type sequence_id headers payload) ≡ bytes
      same = ap (λ p. fields ++ (headers ++ p)) (append-nil payload)

-- ===== src/Packet/Create/Layout.antt =====
-- What `create` writes, and when it refuses.
use scalable_tcp_server.Base.{
  ap, sym, ◌∙◌, ℕ, ◌+◌, ◌^◌, ◌≤◌, ◌<◌, ◌≡◌, refl, ◌≢◌, ◌↔◌, List, ◌∷◌, ◌++◌, length, done, arith,
}
use scalable_tcp_server.Word.{Host, u16, u32}
use scalable_tcp_server.Word.Order.{be16, be32, store16-ntohs, store32-ntohl}
use scalable_tcp_server.Packet.{
  PacketVersion, PacketType, PacketFlags, max_header_size, max_payload_size, offset_headers,
  packet_version_to_byte, packet_type_to_byte, packet_flags_to_bytes,
}
use scalable_tcp_server.Packet.Create.{OutgoingPacket, create}

-- The fixed fields of a packet on the wire, as the table in common/packet.hpp draws them.
abbrev pub layout : PacketType → ℕ → ℕ → ℕ → List ℕ
layout type sequence_id header_size payload_size =
    be32 (offset_headers + header_size + payload_size)
    ++ 1 ∷ packet_type_to_byte type ∷ be16 header_size
    ++ 0 ∷ 0 ∷ be32 sequence_id

abbrev pub created : PacketType → ℕ → List ℕ → List ℕ → OutgoingPacket
created type sequence_id headers payload = record {
  fields = layout type sequence_id (length headers) (length payload);
  headers = headers;
  payload = payload;
}

-- The call does not fail, and what comes out holds the fields as drawn, the headers and the payload.
pub create-eq_done :
    (host : Host) (type : PacketType) (flags : PacketFlags) (sequence_id : ℕ)
    (headers payload : List ℕ)
    → type ≢ PacketType.unknown
    → sequence_id < 2 ^ 32
    → length headers ≤ max_header_size
    → length payload ≤ max_payload_size
    → create host PacketVersion.v1 type flags sequence_id headers payload
      ≡ done (created type sequence_id headers payload)
unfolding create packet_version_to_byte packet_flags_to_bytes
create-eq_done host type PacketFlags.none sequence_id headers payload known word hh hp = ground (
  arith,
  store32-ntohl host sequence_id,
  store16-ntohs host 0,
  store16-ntohs host (u16 (length headers)),
  store32-ntohl host (u32 (offset_headers + u16 (length headers) + u32 (length payload))),
)

-- The guards of `create`.
pub record IsAccepted (version : PacketVersion) (type : PacketType) (headers payload : List ℕ)
    : Type 0 where
  pub version_known : version ≡ PacketVersion.v1
  pub type_known : type ≢ PacketType.unknown
  pub header_fits : length headers ≤ max_header_size
  pub payload_fits : length payload ≤ max_payload_size

create-IsAccepted :
    (host : Host) (version : PacketVersion) (type : PacketType) (flags : PacketFlags)
    (sequence_id : ℕ) (headers payload : List ℕ) (pkt : OutgoingPacket)
    → create host version type flags sequence_id headers payload ≡ done pkt
    → IsAccepted version type headers payload
unfolding create
create-IsAccepted host PacketVersion.unknown type flags sequence_id headers payload pkt e = cc
create-IsAccepted host PacketVersion.v1 type PacketFlags.none sequence_id headers payload pkt e =
    record {
      version_known = refl;
      type_known = ground arith;
      header_fits = ground arith;
      payload_fits = ground arith;
    }

-- With a 32-bit sequence id, `create` returns a packet exactly for version 1, a type that is not
-- `Unknown`, at most 1024 bytes of headers and at most 1024 * 1024 bytes of payload; the packet is
-- then the one that common/packet.hpp draws, in network byte order, on either host.
pub create-done_iff :
    (host : Host) (version : PacketVersion) (type : PacketType) (flags : PacketFlags)
    (sequence_id : ℕ) (headers payload : List ℕ) (pkt : OutgoingPacket)
    → sequence_id < 2 ^ 32
    → (create host version type flags sequence_id headers payload ≡ done pkt)
      ↔ (IsAccepted version type headers payload × (pkt ≡ created type sequence_id headers payload))
create-done_iff host version type flags sequence_id headers payload pkt word = (
  (λ e.
      let a = create-IsAccepted host version type flags sequence_id headers payload pkt e in
      (
        a,
        cc (
          e,
          ap (λ v. create host v type flags sequence_id headers payload) a.version_known,
          returned a,
        ),
      )),
  λ (a, e).
      ap (λ v. create host v type flags sequence_id headers payload) a.version_known
      ∙ returned a
      ∙ ap done (sym e),
)
  where
    returned :
        IsAccepted version type headers payload
        → create host PacketVersion.v1 type flags sequence_id headers payload
          ≡ done (created type sequence_id headers payload)
    returned a =
        create-eq_done host type flags sequence_id headers payload a.type_known word a.header_fits
          a.payload_fits

-- ===== src/Packet/Parse/Shape.antt =====
-- What the constructor `Packet::Packet` accepts, and what it then holds.
use scalable_tcp_server.Base.{
  ℕ, ◌+◌, ◌≤◌, ◌≡◌, ◌≢◌, ◌↔◌, refl, List, length, All, done, arith, ◌∙◌, ap,
}
use scalable_tcp_server.Word.{Host, IsByte, u32, ntohs, ntohl}
use scalable_tcp_server.Packet.{
  Packet, PacketVersion, PacketType, PacketFlags, byte_at, max_header_size, max_payload_size,
  offset_headers, offset_version, offset_packet_type, offset_header_size, offset_sequence_id,
  packet_version_from_byte, packet_type_from_byte,
}
use scalable_tcp_server.Packet.Parse.{parse, parse_sub_headers}
use scalable_tcp_server.Packet.Parse.Reads.{Field16, Field32, Field16-eq, Field32-eq}
use scalable_tcp_server.Packet.Parse.Tiles.{Tiles}
use scalable_tcp_server.Packet.Parse.Safety.{parse_sub_headers-done_iff}
use scalable_tcp_server.Packet.Parse.Guards.{
  Reads, reads, Guards, built, parse-built, guards_of, area_of, long_of,
}

-- What the constructor requires of the bytes, and what `p` then holds. The bytes of the packet_size
-- field and of the flags, which common/packet.hpp draws too, are not looked at: the size is how many
-- bytes there are, and there are no flags.
pub record IsReadAs (host : Host) (bytes : List ℕ) (p : Packet) : Type 0 where
  pub size_lem : p.packet_size ≡ u32 (length bytes)
  pub version_read : byte_at bytes offset_version ≡ done 1
  pub version_lem : p.version ≡ PacketVersion.v1
  pub type_byte : ℕ
  pub type_read : byte_at bytes offset_packet_type ≡ done type_byte
  pub type_lem : p.packet_type ≡ packet_type_from_byte type_byte
  pub type_known : p.packet_type ≢ PacketType.unknown
  pub header_size_read : Field16 bytes offset_header_size p.header_size
  pub header_size_fits : p.header_size ≤ max_header_size
  pub flags_lem : p.flags ≡ PacketFlags.none
  pub sequence_id_read : Field32 bytes offset_sequence_id p.sequence_id
  pub payload_at : p.offset_payload ≡ offset_headers + p.header_size
  pub payload_size_lem : p.offset_payload + p.payload_size ≡ p.packet_size
  pub payload_fits : p.payload_size ≤ max_payload_size
  pub buffer_lem : p.buffer ≡ bytes
  pub headers_tile : Tiles host bytes p.header_size 0 p.headers

module _ (host : Host) (bytes : List ℕ) (are_bytes : All IsByte bytes) where
  version_is_1 : (b : ℕ) → packet_version_from_byte b ≡ PacketVersion.v1 → b ≡ 1
  unfolding packet_version_from_byte
  version_is_1 b e = ground arith

  sound : (p : Packet) → parse host bytes ≡ done p → IsReadAs host bytes p
  sound p e =
      let r = reads host bytes are_bytes (long_of host bytes are_bytes p e) in
      let g = guards_of host bytes are_bytes r p e in
      let (hs, eh, ep) = area_of host bytes are_bytes r p e in
      let one = version_is_1 r.version_byte g.version_known in
      rw ep (record {
        size_lem = refl;
        version_read = ground (arith, r.version_read);
        version_lem = refl;
        type_byte = r.type_byte;
        type_read = r.type_read;
        type_lem = refl;
        type_known = g.type_known;
        header_size_read = r.header_size_field;
        header_size_fits = g.small;
        flags_lem = refl;
        sequence_id_read = r.sequence_id_field;
        payload_at = refl;
        payload_size_lem = omega (arith, g.fits);
        payload_fits = g.payload_fits;
        buffer_lem = refl;
        headers_tile =
            (parse_sub_headers-done_iff host bytes are_bytes (ntohs host r.header_size) g.small
                (omega (arith, g.fits)) hs).0
              eh;
      })

  complete :
      (p : Packet)
      → offset_headers ≤ length bytes
      → IsReadAs host bytes p
      → parse host bytes ≡ done p
  complete p long q = parse-built host bytes are_bytes r p.headers g area ∙ ap done same
    where
      r : Reads host bytes are_bytes
      r = reads host bytes are_bytes long

      type_eq : p.packet_type ≡ packet_type_from_byte r.type_byte
      type_eq = ground (arith, r.type_read, q.type_read, q.type_lem)

      header_size_eq : p.header_size ≡ ntohs host r.header_size
      header_size_eq =
          Field16-eq bytes offset_header_size p.header_size (ntohs host r.header_size)
            q.header_size_read r.header_size_field

      sequence_id_eq : p.sequence_id ≡ ntohl host r.sequence_id
      sequence_id_eq =
          Field32-eq bytes offset_sequence_id p.sequence_id (ntohl host r.sequence_id)
            q.sequence_id_read r.sequence_id_field

      version_eq : packet_version_from_byte r.version_byte ≡ PacketVersion.v1
      version_eq = unfold packet_version_from_byte in ground (arith, r.version_read, q.version_read)

      g : Guards host bytes are_bytes r
      g = record {
        version_known = version_eq;
        type_known = rw type_eq at q.type_known;
        small = omega (arith, header_size_eq, q.header_size_fits);
        fits = omega (arith, header_size_eq, q.payload_at, q.payload_size_lem, q.size_lem);
        payload_fits =
            omega
              (arith, header_size_eq, q.payload_at, q.payload_size_lem, q.size_lem, q.payload_fits);
      }

      area : parse_sub_headers host bytes (ntohs host r.header_size) ≡ done p.headers
      area =
          (parse_sub_headers-done_iff host bytes are_bytes (ntohs host r.header_size) g.small
              (omega (arith, g.fits)) p.headers).1
            (rw header_size_eq at q.headers_tile)

      same : built host bytes are_bytes r p.headers ≡ p
      same = ground (arith, type_eq, header_size_eq, sequence_id_eq, q)

  -- Of any bytes the constructor makes `p` exactly if: there are as many as the fixed fields take;
  -- the version's byte is 1 and the type's byte that of a known type; the header size, in network
  -- order, is within its limit, and sub headers with their sizes in the host's byte order tile the
  -- area after the fixed fields; the payload is the rest of the size that `p` holds, within its
  -- limit; and `p` holds these values and the sequence id in network order, the number of the
  -- bytes, modulo 2^32, as its size, and no flags. Nothing is required of the bytes of the
  -- packet_size field and of the flags.
  pub parse-done_iff :
      (p : Packet)
      → (parse host bytes ≡ done p) ↔ ((offset_headers ≤ length bytes) × IsReadAs host bytes p)
  parse-done_iff p =
      ((λ e. (long_of host bytes are_bytes p e, sound p e)), λ (long, q). complete p long q)

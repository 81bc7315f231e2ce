-- ===== src/Packet/Parse/Guards.antt =====
-- The constructor `Packet::Packet` past its reads: it returns or throws on any bytes, and returns
-- exactly if its guards pass and the header area parses.
use scalable_tcp_server.Base.{
  ℕ, ◌+◌, ◌-◌, ◌≤◌, ◌≡◌, ◌≢◌, List, length, All, Outcome, done, IsDefined, IsDefined-cases, arith,
  inl, inr, ◌⊎◌, refl, Exception, throws,
}
use scalable_tcp_server.Word.{Host, IsByte, u32, ntohs, ntohl}
use scalable_tcp_server.Packet.{
  Packet, SubHeader, PacketVersion, PacketType, PacketFlags, byte_at, read16, read32,
  max_header_size, max_payload_size, offset_headers, offset_version, offset_packet_type,
  offset_header_size, offset_flags, offset_sequence_id, packet_version_from_byte,
  packet_type_from_byte,
}
use scalable_tcp_server.Packet.Parse.{parse, parse_sub_headers}
use scalable_tcp_server.Packet.Parse.Reads.{
  Field16, Field32, byte_at-done, Field16-done, Field32-done,
}
use scalable_tcp_server.Packet.Parse.Safety.{parse_sub_headers-IsDefined}
use native.Mathlib.Decide.{dec_lt}

module _ (host : Host) (bytes : List ℕ) (are_bytes : All IsByte bytes) where
  -- The reads of the constructor, all inside a buffer of 14 bytes or more.
  pub record Reads : Type 0 where
    pub version_byte : ℕ
    pub version_read : byte_at bytes offset_version ≡ done version_byte
    pub type_byte : ℕ
    pub type_read : byte_at bytes offset_packet_type ≡ done type_byte
    pub header_size : ℕ
    pub header_size_read : read16 host bytes offset_header_size ≡ done header_size
    pub header_size_field : Field16 bytes offset_header_size (ntohs host header_size)
    pub flags : ℕ
    pub flags_read : read16 host bytes offset_flags ≡ done flags
    pub sequence_id : ℕ
    pub sequence_id_read : read32 host bytes offset_sequence_id ≡ done sequence_id
    pub sequence_id_field : Field32 bytes offset_sequence_id (ntohl host sequence_id)

  pub reads : offset_headers ≤ length bytes → Reads
  reads h =
      let (v, ev, _) = byte_at-done bytes are_bytes offset_version (omega arith) in
      let (t, et, _) = byte_at-done bytes are_bytes offset_packet_type (omega arith) in
      let (s, es, fs) = Field16-done bytes are_bytes host offset_header_size (omega arith) in
      let (f, ef, _) = Field16-done bytes are_bytes host offset_flags (omega arith) in
      let (q, eq, fq) = Field32-done bytes are_bytes host offset_sequence_id (omega arith) in
      record {
        version_byte = v;
        version_read = ev;
        type_byte = t;
        type_read = et;
        header_size = s;
        header_size_read = es;
        header_size_field = fs;
        flags = f;
        flags_read = ef;
        sequence_id = q;
        sequence_id_read = eq;
        sequence_id_field = fq;
      }

  module _ (r : Reads) where
    -- What the guards ask of the bytes that were read.
    pub record Guards : Type 0 where
      pub version_known : packet_version_from_byte r.version_byte ≡ PacketVersion.v1
      pub type_known : packet_type_from_byte r.type_byte ≢ PacketType.unknown
      pub small : ntohs host r.header_size ≤ max_header_size
      pub fits : offset_headers + ntohs host r.header_size ≤ u32 (length bytes)
      pub payload_fits :
          u32 (length bytes) - (offset_headers + ntohs host r.header_size) ≤ max_payload_size

    abbrev pub built : List SubHeader → Packet
    built headers = record {
      packet_size = u32 (length bytes);
      version = PacketVersion.v1;
      packet_type = packet_type_from_byte r.type_byte;
      header_size = ntohs host r.header_size;
      flags = PacketFlags.none;
      sequence_id = ntohl host r.sequence_id;
      offset_payload = offset_headers + ntohs host r.header_size;
      payload_size = u32 (length bytes) - (offset_headers + ntohs host r.header_size);
      buffer = bytes;
      headers = headers;
    }

    abbrev area : Outcome (List SubHeader)
    area = parse_sub_headers host bytes (ntohs host r.header_size)

    area-cases :
        offset_headers + ntohs host r.header_size ≤ u32 (length bytes)
        → ntohs host r.header_size ≤ max_header_size
        → ((hs : List SubHeader) × (area ≡ done hs)) ⊎ ((x : Exception) × (area ≡ throws x))
    area-cases fits small = IsDefined-cases area (
        parse_sub_headers-IsDefined host bytes are_bytes (ntohs host r.header_size) small
          (omega arith))

    pub parse-built :
        (headers : List SubHeader)
        → Guards
        → area ≡ done headers
        → parse host bytes ≡ done (built headers)
    unfolding parse
    parse-built headers g e =
        ground
          (arith, r.version_read, r.type_read, r.header_size_read, r.flags_read, r.sequence_id_read)

    pub guards_of : (p : Packet) → parse host bytes ≡ done p → Guards
    unfolding parse
    guards_of p e = record {
      version_known = ground (
        arith,
        r.version_read,
        r.type_read,
        r.header_size_read,
        r.flags_read,
        r.sequence_id_read,
        known (packet_version_from_byte r.version_byte),
      );
      type_known = ground (
        arith, r.version_read, r.type_read, r.header_size_read, r.flags_read, r.sequence_id_read,
      );
      small = ground (
        arith, r.version_read, r.type_read, r.header_size_read, r.flags_read, r.sequence_id_read,
      );
      fits = ground (
        arith, r.version_read, r.type_read, r.header_size_read, r.flags_read, r.sequence_id_read,
      );
      payload_fits = ground (
        arith, r.version_read, r.type_read, r.header_size_read, r.flags_read, r.sequence_id_read,
      );
    }
      where
        known : (v : PacketVersion) → (v ≡ PacketVersion.unknown) ⊎ (v ≡ PacketVersion.v1)
        known PacketVersion.unknown = inl refl
        known PacketVersion.v1 = inr refl

    pub area_of :
        (p : Packet)
        → parse host bytes ≡ done p
        → (hs : List SubHeader) × (area ≡ done hs) × (p ≡ built hs)
    unfolding parse
    area_of p e =
        let g = guards_of p e in
        elim (area-cases g.fits g.small) [
          | inl (hs, eh) ↦ (hs, eh, cc (e, parse-built hs g eh))
          | inr (x, eh) ↦ absurd (
              ground (
                arith, r.version_read, r.type_read, r.header_size_read, r.flags_read,
                r.sequence_id_read,
              ))
        ]

    IsDefined_of : IsDefined (parse host bytes)
    unfolding parse
    IsDefined_of = elim (dec_lt (u32 (length bytes)) (offset_headers + ntohs host r.header_size)) [
      | yes over ↦
          ground (
            arith, r.version_read, r.type_read, r.header_size_read, r.flags_read,
            r.sequence_id_read,
          )
      | no fits ↦ elim (dec_lt max_header_size (ntohs host r.header_size)) [
        | yes over ↦ ground (
          arith, r.version_read, r.type_read, r.header_size_read, r.flags_read, r.sequence_id_read,
        )
        | no small ↦ elim (area-cases (omega arith) (omega arith)) [
          | inl (hs, e) ↦ ground (
            arith, r.version_read, r.type_read, r.header_size_read, r.flags_read,
            r.sequence_id_read,
          )
          | inr (x, e) ↦ ground (
            arith, r.version_read, r.type_read, r.header_size_read, r.flags_read,
            r.sequence_id_read,
          )
        ]
      ]
    ]

  -- On every list of bytes the constructor returns or throws: its loop ends, and it never reads outside
  -- the buffer.
  pub parse-IsDefined : IsDefined (parse host bytes)
  unfolding parse
  parse-IsDefined = elim (dec_lt (u32 (length bytes)) offset_headers) [
    | yes short ↦ ground arith
    | no long ↦ IsDefined_of (reads (omega arith))
  ]

  pub long_of : (p : Packet) → parse host bytes ≡ done p → offset_headers ≤ length bytes
  unfolding parse
  long_of p e = ground arith

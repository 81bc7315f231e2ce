-- ===== src/Packet/NetworkOrder.antt =====
-- Packets of a sender that writes the sizes of its sub headers in network order, on a little-endian
-- host.
use scalable_tcp_server.Base.{
  ℕ, ◌+◌, ◌*◌, ◌≤◌, ◌<◌, ◌≡◌, ◌≢◌, sym, ap, ◌∙◌, inl, inr, List, [], ◌∷◌, length, done, throws,
  Exception, IsDefined-cases, arith,
}
use scalable_tcp_server.Word.{Host, little, big, store16, load16}
use scalable_tcp_server.Packet.{
  Packet, PacketVersion, PacketType, PacketFlags, SubHeader, byte_at, read16, offset_headers,
  offset_header_size,
}
use scalable_tcp_server.Packet.Create.{OutgoingPacket, create}
use scalable_tcp_server.Packet.Parse.{parse}
use scalable_tcp_server.Packet.Parse.Guards.{parse-IsDefined}
use scalable_tcp_server.Packet.Parse.Reads.{Field16-eq}
use scalable_tcp_server.Packet.Parse.Shape.{parse-done_iff}
use scalable_tcp_server.Packet.Parse.Tiles.{Tiles}
use scalable_tcp_server.Packet.Encode.{Entry, encode_all, length-encode_all}
use scalable_tcp_server.Packet.RoundTrip.{
  wire, IsSendable, bytes, bytes-IsByte, is_packet, parse-create,
}

-- Sub headers do not go beyond the area.
Tiles-le :
    (host : Host) (buffer : List ℕ) (header_size count : ℕ) (ss : List SubHeader)
    → Tiles host buffer header_size count ss
    → count ≤ header_size
Tiles-le host buffer header_size count [] h = omega (arith, h)
Tiles-le host buffer header_size count (s ∷ ss) (here, after) =
    omega (arith, Tiles-le host buffer header_size (count + 3 + s.size) ss after)

module _ (type : PacketType) (sequence_id : ℕ) (entry : Entry) (entries : List Entry)
    (payload : List ℕ) (s : IsSendable big type sequence_id (entry ∷ entries) payload)
    (some_value : 0 < length entry.value) (short_value : length entry.value < 256)
    (short : length (encode_all big (entry ∷ entries)) ≤ 258) where
  abbrev stream : List ℕ
  stream = bytes big type sequence_id (entry ∷ entries) payload s

  -- The size of the first sub header, its bytes swapped.
  size_swapped : read16 little stream offset_headers ≡ done (length entry.value * 256)
  unfolding read16 byte_at store16 load16
  size_swapped = ap done (omega arith)

  too_large :
      (ss : List SubHeader)
      → Tiles little stream (length (encode_all big (entry ∷ entries))) 0 ss
      → ⊥
  too_large [] h = omega (arith, h, length-encode_all big entry entries)
  too_large (h ∷ hs) (here, after) =
      let size : done (length entry.value * 256) ≡ done h.size =
        sym size_swapped ∙ here.size_read in
      let same : length entry.value * 256 ≡ h.size = cc in
      let within = Tiles-le little stream _ _ hs after in omega (arith, same, within)

  not_done : (p : Packet) → parse little stream ≢ done p
  not_done p e =
      let are = bytes-IsByte big type sequence_id (entry ∷ entries) payload s in
      let (_, q) = (parse-done_iff little stream are p).0 e in
      let drawn = is_packet big type sequence_id (entry ∷ entries) payload s in
      let same =
        Field16-eq stream offset_header_size p.header_size
          (length (encode_all big (entry ∷ entries))) q.header_size_read drawn.header_size_read in
      too_large p.headers (rw same at q.headers_tile)

  -- A packet that the program makes with sub headers whose sizes are in network order, the first with a
  -- value of 1 to 255 bytes and all of them in at most 258 bytes, is refused by the constructor on a
  -- little-endian host, while a big-endian one takes it.
  pub network_order-throws :
      (sender : Host)
      → (pkt : OutgoingPacket) × (create sender PacketVersion.v1 type PacketFlags.none sequence_id
            (encode_all big (entry ∷ entries))
            payload
          ≡ done pkt)
        × ((e : Exception) × (parse little (wire pkt) ≡ throws e))
        × ((p : Packet) × (parse big (wire pkt) ≡ done p))
  network_order-throws sender =
      let (pkt, made, same, taken) =
        parse-create big type sequence_id (entry ∷ entries) payload s sender in
      let are = bytes-IsByte big type sequence_id (entry ∷ entries) payload s in
      (
        pkt,
        made,
        rw same (elim (IsDefined-cases (parse little stream) (parse-IsDefined little stream are)) [
          | inl (p, e) ↦ absurd (not_done p e)
          | inr refused ↦ refused
        ]),
        (_, taken),
      )

-- ===== src/Connection/Reader/Mismatch.antt =====
-- Packets that `Packet::create` makes, read by the reader of the same program.
use scalable_tcp_server.Base.{
  ℕ, ◌+◌, ◌/◌, ◌%◌, ◌^◌, ◌<◌, ◌≡◌, refl, true, false, List, [], ◌∷◌, ◌++◌, length, length-append,
  append-nil, done, arith, ap, leb,
}
use native.Mathlib.Decide.{dec_lt}
use scalable_tcp_server.Word.{Host, load32}
use scalable_tcp_server.Packet.{
  PacketVersion, PacketType, PacketFlags, packet_type_to_byte, max_packet_size, packet_length,
  offset_headers,
}
use scalable_tcp_server.Packet.Create.{OutgoingPacket, create}
use scalable_tcp_server.Packet.Create.Layout.{create-done_iff}
use scalable_tcp_server.Packet.RoundTrip.{wire}
use scalable_tcp_server.Connection.{Session, success}
use scalable_tcp_server.Connection.Lifecycle.{stop}
use scalable_tcp_server.Connection.Reader.{on_length}
use scalable_tcp_server.Connection.Reader.Frames.{announced, too_long, length_accepted}

module _ (sender : Host) (version : PacketVersion) (type : PacketType) (flags : PacketFlags)
    (sequence_id : ℕ) (headers payload : List ℕ) (pkt : OutgoingPacket)
    (word : sequence_id < 2 ^ 32)
    (made : create sender version type flags sequence_id headers payload ≡ done pkt) where
  abbrev pub total : ℕ
  total = offset_headers + length headers + length payload

  -- What follows the length field.
  abbrev pub after_length : List ℕ
  after_length =
      1
      ∷ packet_type_to_byte type
      ∷ length headers / 256
      ∷ length headers % 256
      ∷ 0
      ∷ 0
      ∷ sequence_id / 16777216
      ∷ sequence_id / 65536 % 256
      ∷ sequence_id / 256 % 256
      ∷ sequence_id % 256
      ∷ (headers ++ (payload ++ []))

  pub wire-created :
      wire pkt
      ≡ total / 16777216 ∷ total / 65536 % 256 ∷ total / 256 % 256 ∷ total % 256 ∷ after_length
  wire-created =
      let (a, e) =
        (create-done_iff sender version type flags sequence_id headers payload pkt word).0 made in
      rw e refl

  pub total-lt : total < 2 ^ 32
  total-lt =
      let (a, e) =
        (create-done_iff sender version type flags sequence_id headers payload pkt word).0 made in
      omega (arith, a.header_fits, a.payload_fits)

  pub total-length : total ≡ length after_length + packet_length
  total-length =
      omega (arith, length-append headers (payload ++ []), ap length (append-nil payload))

  starts :
      (rest : List ℕ) × (wire pkt
        ≡ total / 16777216 ∷ total / 65536 % 256 ∷ total / 256 % 256 ∷ total % 256 ∷ rest)
      × (total ≡ length rest + packet_length)
      × (total < 2 ^ 32)
  starts = (after_length, wire-created, total-length, total-lt)

  -- From a packet that `create` made, an open session with an empty packet buffer reads a length of
  -- four more than the bytes that follow it, and is open after that exactly if this length is within
  -- `MAX_PACKET_SIZE`.
  reader_expects_more :
      (host : Host) (now : ℕ) (s : Session)
      → s.destroyed ≡ false
      → s.is_open ≡ true
      → s.stopped ≡ false
      → s.packet_buffer ≡ []
      → (a : ℕ) × (b : ℕ) × (c : ℕ) × (d : ℕ) × (rest : List ℕ) × (t : Session) × (wire pkt
          ≡ a ∷ b ∷ c ∷ d ∷ rest)
        × (on_length host now success (load32 host a b c d) s ≡ done t)
        × (t.packet_length ≡ length rest + packet_length)
        × (t.is_open ≡ leb (length rest + packet_length) max_packet_size)
  unfolding stop
  reader_expects_more host now s alive listening going clear =
      let (rest, e, n, small) = starts in
      let a = total / 16777216 in
      let b = total / 65536 % 256 in
      let c = total / 256 % 256 in
      let d = total % 256 in
      let same : announced a b c d ≡ total = omega arith in
      elim (dec_lt max_packet_size total) [
        | yes over ↦ (
          a,
          b,
          c,
          d,
          rest,
          _,
          e,
          too_long host now a b c d (omega arith) (omega arith) (omega arith) (omega arith) s alive
              listening (omega arith),
          rw (going, stop) (omega arith),
          rw (going, stop) (ground arith),
        )
        | no fits ↦ (
          a,
          b,
          c,
          d,
          rest,
          _,
          e,
          length_accepted host now a b c d (omega arith) (omega arith) (omega arith) (omega arith) s
              alive listening (omega arith) clear,
          omega arith,
          ground arith,
        )
      ]

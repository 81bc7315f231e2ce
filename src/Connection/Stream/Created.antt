-- ===== src/Connection/Stream/Created.antt =====
-- A client that sends two packets in a row as `Packet::create` makes them.
use scalable_tcp_server.Base.{
  ℕ, suc, ◌+◌, ◌/◌, ◌%◌, ◌^◌, ◌≤◌, ◌<◌, ◌≡◌, ◌⊎◌, inl, inr, refl, ap, sym, ◌∙◌, List, [], ◌∷◌, ◌++◌,
  append_assoc, length, length-append, All, All-append_split, Outcome, done, throws, fault, stuck,
  Exception, IsDefined, arith,
}
use mathlib.Core.Path.{subst}
use native.Mathlib.Decide.{dec_lt}
use scalable_tcp_server.Word.{Host, IsByte}
use scalable_tcp_server.Packet.{
  Packet, PacketVersion, PacketType, PacketFlags, max_packet_size, packet_type_to_byte,
}
use scalable_tcp_server.Packet.Create.{OutgoingPacket, create}
use scalable_tcp_server.Packet.RoundTrip.{wire}
use scalable_tcp_server.Packet.Parse.{parse}
use scalable_tcp_server.Packet.Parse.Guards.{parse-IsDefined}
use scalable_tcp_server.Auth.{LoginRequest}
use scalable_tcp_server.Connection.{Session}
use scalable_tcp_server.Connection.Reader.Frames.{announced}
use scalable_tcp_server.Connection.Reader.Mismatch.{
  total, after_length, wire-created, total-lt, total-length,
}
use scalable_tcp_server.Connection.Stream.{serve}
use scalable_tcp_server.Connection.Stream.Frame.{IsWaiting}
use scalable_tcp_server.Connection.Stream.Judged.{stops, refuses, Judged, too_long, refused, taken}
use scalable_tcp_server.Connection.Stream.Ends.{Ends, serve-Judged}

-- The stream ends a session that reads it.
abbrev IsEnding : Host → List ℕ → Type 0
IsEnding host bytes = Judged host stops bytes ⊎ ((e : Exception) × Judged host (refuses e) bytes)

announced-total :
    (n : ℕ) → n < 2 ^ 32 → announced (n / 16777216) (n / 65536 % 256) (n / 256 % 256) (n % 256) ≡ n
announced-total n h = omega arith

-- A frame whose length counts four bytes too many, and what begins with a byte 1 behind it.
four_too_many :
    (host : Host) (n : ℕ) (body : List ℕ) (f g h i t x y : ℕ) (rest : List ℕ)
    → n < 2 ^ 32
    → n ≡ length body + 4
    → All IsByte
        (n / 16777216 ∷ n / 65536 % 256 ∷ n / 256 % 256 ∷ n % 256 ∷ (body ++ f ∷ g ∷ h ∷ i ∷ []))
    → IsEnding host (
        n / 16777216
        ∷ n / 65536 % 256
        ∷ n / 256 % 256
        ∷ n % 256
        ∷ ((body ++ f ∷ g ∷ h ∷ i ∷ []) ++ 1 ∷ t ∷ x ∷ y ∷ rest))
four_too_many host n body f g h i t x y rest word e are = elim (dec_lt max_packet_size n) [
  | yes long ↦ inl (too_long _ _ _ _ _ refl (omega (arith, announced-total n word)) refl)
  | no fits ↦ by_parse (parse host packet) refl (parse-IsDefined host packet are) (omega arith)
]
  where
    packet : List ℕ
    packet = n / 16777216 ∷ n / 65536 % 256 ∷ n / 256 % 256 ∷ n % 256 ∷ (body ++ f ∷ g ∷ h ∷ i ∷ [])

    stream : List ℕ
    stream =
        n / 16777216
        ∷ n / 65536 % 256
        ∷ n / 256 % 256
        ∷ n % 256
        ∷ ((body ++ f ∷ g ∷ h ∷ i ∷ []) ++ 1 ∷ t ∷ x ∷ y ∷ rest)

    whole :
        length (body ++ f ∷ g ∷ h ∷ i ∷ [])
        ≡ announced (n / 16777216) (n / 65536 % 256) (n / 256 % 256) (n % 256)
    whole = omega (arith, length-append body (f ∷ g ∷ h ∷ i ∷ []), announced-total n word)

    by_parse :
        (o : Outcome Packet)
        → parse host packet ≡ o
        → IsDefined o
        → n ≤ max_packet_size
        → IsEnding host stream
    by_parse (done p) ep ok fits = inl (
        taken _ _ _ _ (body ++ f ∷ g ∷ h ∷ i ∷ []) (1 ∷ t ∷ x ∷ y ∷ rest) p refl
          (omega (arith, announced-total n word)) whole ep
          (too_long 1 t x y rest refl (omega arith) refl))
    by_parse (throws ex) ep ok fits = inr (
      ex,
      refused _ _ _ _ (body ++ f ∷ g ∷ h ∷ i ∷ []) (1 ∷ t ∷ x ∷ y ∷ rest) ex refl
          (omega (arith, announced-total n word)) whole ep refl,
    )
    by_parse fault ep ok fits = absurd ok
    by_parse stuck ep ok fits = absurd ok

module _ (sender : Host) (version version' : PacketVersion) (type type' : PacketType)
    (flags flags' : PacketFlags) (sequence_id sequence_id' : ℕ)
    (headers headers' payload payload' : List ℕ) (p q : OutgoingPacket)
    (word : sequence_id < 2 ^ 32) (word' : sequence_id' < 2 ^ 32)
    (made : create sender version type flags sequence_id headers payload ≡ done p)
    (made' : create sender version' type' flags' sequence_id' headers' payload' ≡ done q)
    (more : List ℕ) (are_bytes : All IsByte (wire p ++ (wire q ++ more))) where
  abbrev n : ℕ
  n = total sender version type flags sequence_id headers payload p word made

  abbrev n' : ℕ
  n' = total sender version' type' flags' sequence_id' headers' payload' q word' made'

  abbrev body : List ℕ
  body = after_length sender version type flags sequence_id headers payload p word made

  -- What follows the first four bytes behind the length of the second packet.
  abbrev tail : List ℕ
  tail =
      0
      ∷ 0
      ∷ sequence_id' / 16777216
      ∷ sequence_id' / 65536 % 256
      ∷ sequence_id' / 256 % 256
      ∷ sequence_id' % 256
      ∷ ((headers' ++ (payload' ++ [])) ++ more)

  abbrev tail_from_1 : List ℕ
  tail_from_1 = 1 ∷ packet_type_to_byte type' ∷ length headers' / 256 ∷ length headers' % 256 ∷ tail

  -- The length of the second packet, which the reader takes for the end of the first.
  abbrev length_field : List ℕ
  length_field = n' / 16777216 ∷ n' / 65536 % 256 ∷ n' / 256 % 256 ∷ n' % 256 ∷ []

  abbrev cut : List ℕ
  cut =
      n / 16777216
      ∷ n / 65536 % 256
      ∷ n / 256 % 256
      ∷ n % 256
      ∷ ((body ++ length_field) ++ tail_from_1)

  stream-cut : wire p ++ (wire q ++ more) ≡ cut
  stream-cut =
      ap (λ w. w ++ (wire q ++ more))
        (wire-created sender version type flags sequence_id headers payload p word made)
      ∙ ap (λ w. n / 16777216 ∷ n / 65536 % 256 ∷ n / 256 % 256 ∷ n % 256 ∷ (body ++ (w ++ more)))
          (wire-created sender version' type' flags' sequence_id' headers' payload' q word' made')
      ∙ ap (λ r. n / 16777216 ∷ n / 65536 % 256 ∷ n / 256 % 256 ∷ n % 256 ∷ r)
          (sym (append_assoc body length_field tail_from_1))

  stream-IsEnding : (host : Host) → IsEnding host (wire p ++ (wire q ++ more))
  stream-IsEnding host = subst (IsEnding host) (sym stream-cut) (
      four_too_many host n body _ _ _ _ _ _ _ tail
        (total-lt sender version type flags sequence_id headers payload p word made)
        (total-length sender version type flags sequence_id headers payload p word made)
        (All-append_split IsByte
          (n / 16777216 ∷ n / 65536 % 256 ∷ n / 256 % 256 ∷ n % 256 ∷ (body ++ length_field))
          tail_from_1 (subst (All IsByte) stream-cut are_bytes)).0)

  -- Two packets in a row that `create` made end an open session that reads them, which waited for a
  -- length, whatever is sent behind them: it is stopped, or the exception of the constructor leaves its
  -- handler.
  pub two_packets_end :
      (host : Host) (deserialize : List ℕ → Outcome LoginRequest) (now : ℕ) (s : Session)
      → IsWaiting s
      → let bytes : List ℕ = wire p ++ (wire q ++ more) in
        let read = serve host deserialize now (suc (length bytes)) bytes s in
        Ends stops s read ⊎ ((e : Exception) × Ends (refuses e) s read)
  two_packets_end host deserialize now s w = elim (stream-IsEnding host) [
    | inl j ↦ inl (serve-Judged host deserialize now _ s j are_bytes (omega arith) w)
    | inr (e, j) ↦ inr (e, serve-Judged host deserialize now _ s j are_bytes (omega arith) w)
  ]

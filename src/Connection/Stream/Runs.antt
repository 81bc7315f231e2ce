-- ===== src/Connection/Stream/Runs.antt =====
-- The theorems on what a client sends, at concrete bytes.
use scalable_tcp_server.Base.{ℕ, suc, ◌≡◌, refl, ◌⊎◌, List, [], ◌∷◌, ◌++◌, length, Exception, arith}
use scalable_tcp_server.Word.{little, big}
use scalable_tcp_server.Packet.{PacketVersion, PacketType, PacketFlags, packet_type_to_byte}
use scalable_tcp_server.Packet.Create.Layout.{created}
use scalable_tcp_server.Packet.RoundTrip.{wire}
use scalable_tcp_server.Connection.Samples.{archive, started, packet, created-packet}
use scalable_tcp_server.Connection.Stream.{serve}
use scalable_tcp_server.Connection.Stream.Frame.{IsWaiting}
use scalable_tcp_server.Connection.Stream.Judged.{Verdict, stops, refuses, Judged}
use scalable_tcp_server.Connection.Stream.Ends.{Ends}
use scalable_tcp_server.Connection.Stream.Verdict.{serve-Ends}
use scalable_tcp_server.Connection.Stream.Created.{two_packets_end}

started-IsWaiting : IsWaiting started
started-IsWaiting = record {
  open_lem = refl;
  alive = refl;
  going = refl;
  held = refl;
  one_length = refl;
  no_body = refl;
  clear = refl;
}

-- A length of two bytes, its body and the beginning of another length.
abbrev frames : List ℕ
frames = 0 ∷ 0 ∷ 0 ∷ 2 ∷ 7 ∷ 8 ∷ 0 ∷ 0 ∷ []

serve-Ends_example :
    (v : Verdict) × Judged little v frames
    × ((v' : Verdict) → Judged little v' frames → v' ≡ v)
    × Ends v started (serve little archive 1 (suc (length frames)) frames started)
serve-Ends_example = serve-Ends little archive 1 frames started (omega arith) started-IsWaiting

abbrev twice : List ℕ
twice =
    wire (created PacketType.text 1 [] packet) ++ (wire (created PacketType.text 1 [] packet) ++ [])

two_packets_end_example :
    Ends stops started (serve little archive 1 (suc (length twice)) twice started)
    ⊎ ((e : Exception) × Ends
          (refuses e)
          started
          (serve little archive 1 (suc (length twice)) twice started))
unfolding packet_type_to_byte
two_packets_end_example =
    two_packets_end big PacketVersion.v1 PacketVersion.v1 PacketType.text PacketType.text
      PacketFlags.none PacketFlags.none 1 1 [] [] packet packet
      (created PacketType.text 1 [] packet) (created PacketType.text 1 [] packet) (omega arith)
      (omega arith) created-packet created-packet [] (omega arith) little archive 1 started
      started-IsWaiting

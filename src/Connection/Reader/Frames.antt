-- ===== src/Connection/Reader/Frames.antt =====
-- How the reader cuts the byte stream into packets.
use scalable_tcp_server.Base.{
  ℕ, suc, ◌+◌, ◌-◌, ◌*◌, ◌≤◌, ◌<◌, ◌≡◌, refl, true, false, List, [], ◌∷◌, length, replicate,
  Outcome, done, throws, invalid_argument, ◌>>=◌, arith, ap, ◌∙◌, le→ltb, lt→ltb,
}
use scalable_tcp_server.Word.{Host, IsByte, u32, load32, store32, htonl}
use scalable_tcp_server.Word.Order.{be32, ntohl-load32, store32-ntohl}
use scalable_tcp_server.Packet.{packet_length, max_packet_size}
use scalable_tcp_server.Packet.Parse.{parse}
use scalable_tcp_server.Auth.{LoginRequest}
use scalable_tcp_server.Connection.{Session, success, expires_after}
use scalable_tcp_server.Connection.Lifecycle.{stop}
use scalable_tcp_server.Connection.Reader.{
  on_length, on_body, on_packet, body_was_read, read_length, resize,
}

-- The number that four bytes spell in network order.
abbrev pub announced : ℕ → ℕ → ℕ → ℕ → ℕ
announced a b c d = a * 16777216 + b * 65536 + c * 256 + d

module _ (host : Host) (now a b c d : ℕ) (ha : IsByte a) (hb : IsByte b) (hc : IsByte c)
    (hd : IsByte d) (s : Session) (alive : s.destroyed ≡ false) (listening : s.is_open ≡ true) where
  -- A length above the limit stops the session.
  pub too_long :
      max_packet_size < announced a b c d
      → on_length host now success (load32 host a b c d) s
        ≡ done (stop (record s { packet_length = announced a b c d }))
  unfolding on_length
  too_long h = rw (alive, listening) (ground (arith, ntohl-load32 host a b c d ha hb hc hd))

  be32-announced : be32 (announced a b c d) ≡ a ∷ b ∷ c ∷ d ∷ []
  be32-announced = ground arith

  spelled : store32 host (htonl host (announced a b c d)) ≡ a ∷ b ∷ c ∷ d ∷ []
  spelled = store32-ntohl host (announced a b c d) (omega arith) ∙ be32-announced

  room : (n : ℕ) → n ≤ max_packet_size → u32 (n + packet_length) ≡ suc (suc (suc (suc n)))
  room n h = omega arith

  resized :
      (n : ℕ)
      → n ≤ max_packet_size
      → resize (u32 (n + packet_length)) [] ≡ 0 ∷ 0 ∷ 0 ∷ 0 ∷ replicate n 0
  resized n h =
      let all : u32 (n + packet_length) - 0 ≡ suc (suc (suc (suc n))) = omega arith in
      rw (room n h) (ap (λ k. replicate k 0) (rw (room n h) at all))

  -- The state in which the body is awaited.
  abbrev pub awaiting : Session
  awaiting = record s {
    packet_length = announced a b c d;
    packet_buffer = a ∷ b ∷ c ∷ d ∷ replicate (announced a b c d) 0;
    read_timer = expires_after now s.read_seconds;
    pending = record s.pending { bodies = s.pending.bodies + 1 };
  }

  pub length_accepted :
      announced a b c d ≤ max_packet_size
      → s.packet_buffer ≡ []
      → on_length host now success (load32 host a b c d) s ≡ done awaiting
  unfolding on_length
  length_accepted fits clear =
      rw
        (
          alive,
          listening,
          ntohl-load32 host a b c d ha hb hc hd,
          le→ltb max_packet_size (announced a b c d) fits,
          clear,
          resized (announced a b c d) fits,
          spelled,
        )
        refl

  -- On an open session with an empty packet buffer, a length within the limit is taken, and then the
  -- packet that the session gets is the four bytes of the length and the body, as they came; after it
  -- the reader clears its buffer and waits for the next length.
  frame_delivered :
      (deserialize : List ℕ → Outcome LoginRequest) (later : ℕ)
      → announced a b c d ≤ max_packet_size
      → s.packet_buffer ≡ []
      → (t : Session) × (on_length host now success (load32 host a b c d) s ≡ done t)
        × ((body : List ℕ)
            → on_body host deserialize later success body t ≡ (
                on_packet host deserialize (a ∷ b ∷ c ∷ d ∷ body) t >>= λ t'.
                done (read_length later (record t' { packet_buffer = [] }))))
  frame_delivered deserialize later fits clear = (
    awaiting,
    length_accepted fits clear,
    λ body. unfold on_body body_was_read in rw (alive, listening) refl,
  )

  -- On an open session with an empty packet buffer, an announced length below ten, with a body of that
  -- length, gives a packet that the constructor refuses, and the exception
  -- leaves the handler.
  short_frame_throws :
      (deserialize : List ℕ → Outcome LoginRequest) (later : ℕ) (body : List ℕ)
      → announced a b c d < 10
      → s.packet_buffer ≡ []
      → length body ≡ announced a b c d
      → (t : Session) × (on_length host now success (load32 host a b c d) s ≡ done t)
        × (on_body host deserialize later success body t
            ≡ throws (invalid_argument "Packet size error"))
  short_frame_throws deserialize later body short clear whole =
      let (t, et, deliver) = frame_delivered deserialize later (omega arith) clear in
      (
        t,
        et,
        deliver body
            ∙ unfold on_packet parse in
              rw (lt→ltb (u32 (length (a ∷ b ∷ c ∷ d ∷ body))) 14 (omega arith)) refl,
      )

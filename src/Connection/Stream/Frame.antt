-- ===== src/Connection/Stream/Frame.antt =====
-- One frame: a length, and the body that it announces.
use scalable_tcp_server.Base.{
  ℕ, ◌+◌, ◌-◌, ◌≤◌, ◌<◌, ◌≡◌, refl, ap, ◌∙◌, true, false, List, [], ◌∷◌, All, Outcome, done, throws,
  Exception, ◌>>=◌, arith,
}
use scalable_tcp_server.Word.{Host, IsByte, load32}
use scalable_tcp_server.Packet.{Packet, max_packet_size}
use scalable_tcp_server.Packet.Parse.{parse}
use scalable_tcp_server.Auth.{LoginRequest}
use scalable_tcp_server.Auth.Handler.Unreached.{route-eq_none}
use scalable_tcp_server.Connection.{Session, success}
use scalable_tcp_server.Connection.Lifecycle.{stop, release}
use scalable_tcp_server.Connection.Reader.{on_body, on_packet, body_was_read, read_length}
use scalable_tcp_server.Connection.Reader.Frames.{announced, awaiting, length_accepted, too_long}
use scalable_tcp_server.Connection.Events.{length_read, body_read, handle, step}

-- The session is open, and waits for a length.
pub record IsWaiting (s : Session) : Type 0 where
  pub open_lem : s.is_open ≡ true
  pub alive : s.destroyed ≡ false
  pub going : s.stopped ≡ false
  pub held : s.in_sessions ≡ true
  pub one_length : s.pending.lengths ≡ 1
  pub no_body : s.pending.bodies ≡ 0
  pub clear : s.packet_buffer ≡ []

release-held : (s : Session) → s.destroyed ≡ false → s.in_sessions ≡ true → release s ≡ s
unfolding release
release-held s alive held = ground arith

module _ (host : Host) (deserialize : List ℕ → Outcome LoginRequest) (now a b c d : ℕ)
    (ha : IsByte a) (hb : IsByte b) (hc : IsByte c) (hd : IsByte d) (s : Session)
    (v : IsWaiting s) where
  -- The session when its wait for a length has ended.
  abbrev pub heard : Session
  heard = record s { pending = record s.pending { lengths = s.pending.lengths - 1 } }

  abbrev pub listening : Session
  listening = awaiting host now a b c d ha hb hc hd heard v.alive v.open_lem

  pub step-length :
      announced a b c d ≤ max_packet_size
      → step host deserialize now (length_read success (load32 host a b c d)) s ≡ done listening
  unfolding step handle
  step-length fits =
      ap (λ o. o >>= λ t. done (release t))
        (length_accepted host now a b c d ha hb hc hd heard v.alive v.open_lem fits v.clear)
      ∙ ap done (release-held listening v.alive v.held)

  pub step-too_long :
      max_packet_size < announced a b c d
      → (t : Session) × (step host deserialize now (length_read success (load32 host a b c d)) s
          ≡ done t)
        × (t.is_open ≡ false)
        × (t.on_close_calls ≡ s.on_close_calls + 1)
  unfolding step handle stop release
  step-too_long long = (
    release (stop (record heard { packet_length = announced a b c d })),
    ap (λ o. o >>= λ t. done (release t))
        (too_long host now a b c d ha hb hc hd heard v.alive v.open_lem long),
    ground (arith, v.going),
    ground (arith, v.going),
  )

  -- The session after the body.
  abbrev pub answered : Session
  answered =
      read_length now
        (record (record listening {
          pending = record listening.pending { bodies = listening.pending.bodies - 1 };
        }) { packet_buffer = [] })

  module _ (body : List ℕ) (are_bytes : All IsByte body) where
    abbrev packet : List ℕ
    packet = a ∷ b ∷ c ∷ d ∷ body

    -- The session as the handler of the body finds it.
    abbrev filled_up : Session
    filled_up = record listening {
      pending = record listening.pending { bodies = listening.pending.bodies - 1 };
    }

    on_body-done :
        (p : Packet)
        → parse host packet ≡ done p
        → on_body host deserialize now success body filled_up ≡ done answered
    unfolding on_body body_was_read on_packet
    on_body-done p made =
        rw
          (
            v.alive,
            v.open_lem,
            made,
            (route-eq_none deserialize host packet p (ha, (hb, (hc, (hd, are_bytes)))) made).0,
          )
          refl

    on_body-throws :
        (e : Exception)
        → parse host packet ≡ throws e
        → on_body host deserialize now success body filled_up ≡ throws e
    unfolding on_body body_was_read on_packet
    on_body-throws e refused = rw (v.alive, v.open_lem, refused) refl

    pub step-body :
        (p : Packet)
        → parse host packet ≡ done p
        → step host deserialize now (body_read success body) listening ≡ done answered
    unfolding step handle read_length
    step-body p made =
        ap (λ o. o >>= λ t. done (release t)) (on_body-done p made)
        ∙ ap done (release-held answered v.alive v.held)

    pub step-refused :
        (e : Exception)
        → parse host packet ≡ throws e
        → step host deserialize now (body_read success body) listening ≡ throws e
    unfolding step handle
    step-refused e refused = ap (λ o. o >>= λ t. done (release t)) (on_body-throws e refused)

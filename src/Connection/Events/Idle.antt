-- ===== src/Connection/Events/Idle.antt =====
-- The idle timer of a connection: what postpones it, and what happens when it fires.
use scalable_tcp_server.Base.{
  ℕ, ◌-◌, ◌<◌, ◌≡◌, refl, false, List, [], ◌∷◌, ◌∙◌, ap, sym, Outcome, done, fault, arith,
}
use scalable_tcp_server.Word.{Host}
use scalable_tcp_server.Auth.{LoginRequest}
use scalable_tcp_server.Connection.{Session, ErrorCode, success, operation_aborted, failed}
use scalable_tcp_server.Connection.Lifecycle.{stop, on_idle_timer, release}
use scalable_tcp_server.Connection.Reader.{
  on_length, read_length, on_body, body_was_read, on_read_timer,
}
use scalable_tcp_server.Connection.Writer.{on_post, on_written, on_write_timer}
use scalable_tcp_server.Connection.Events.{
  Event, length_read, body_read, written, posted, read_timer, write_timer, idle_timer,
  packet_to_write, IsEnabled, transmit, run_post, requested, handle, step,
}
use scalable_tcp_server.Connection.Events.Invariant.{body_was_read-done, step-done}

module _ (host : Host) (deserialize : List ℕ → Outcome LoginRequest) (now : ℕ) where
  written_idle :
      (ec : ErrorCode) (ws : List (List ℕ)) (s t : Session)
      → on_written now ec (transmit ec s ws) ≡ done t
      → t.idle_timer ≡ s.idle_timer
  unfolding on_written
  written_idle success [] s t e = ground arith
  written_idle operation_aborted [] s t e = ground arith
  written_idle failed [] s t e = ground arith
  written_idle success (w ∷ ws) s t e = ground arith
  written_idle operation_aborted (w ∷ ws) s t e = ground arith
  written_idle failed (w ∷ ws) s t e = ground arith

  posted_idle :
      (ps : List (List ℕ)) (s t : Session)
      → run_post now s ps ≡ done t
      → t.idle_timer ≡ s.idle_timer
  unfolding on_post
  posted_idle [] s t e = ground arith
  posted_idle (p ∷ ps) s t e = ground arith

  handle_idle :
      (event : Event) (s t : Session)
      → requested event ≡ []
      → handle host deserialize now event s ≡ done t
      → t.idle_timer ≡ s.idle_timer
  unfolding handle on_length on_body read_length on_read_timer on_write_timer on_idle_timer
  handle_idle (written ec) s t q e = written_idle ec s.pending.writes s t e
  handle_idle posted s t q e = posted_idle s.pending.posts s t e
  handle_idle (packet_to_write packet) s t q e = cc
  handle_idle (length_read success word) s t q e = ground arith
  handle_idle (length_read operation_aborted word) s t q e = ground arith
  handle_idle (length_read failed word) s t q e = ground arith
  handle_idle (body_read success body) s t q e = ground (
    arith,
    body_was_read-done host deserialize now body
        (record s { pending = record s.pending { bodies = s.pending.bodies - 1 } }) t,
  )
  handle_idle (body_read operation_aborted body) s t q e = unfold body_was_read in ground arith
  handle_idle (body_read failed body) s t q e = unfold body_was_read in ground arith
  handle_idle (read_timer success) s t q e = ground arith
  handle_idle (read_timer operation_aborted) s t q e = ground arith
  handle_idle (read_timer failed) s t q e = ground arith
  handle_idle (write_timer success) s t q e = ground arith
  handle_idle (write_timer operation_aborted) s t q e = ground arith
  handle_idle (write_timer failed) s t q e = ground arith
  handle_idle (idle_timer success) s t q e = ground arith
  handle_idle (idle_timer operation_aborted) s t q e = ground arith
  handle_idle (idle_timer failed) s t q e = ground arith

  -- Only a packet to write postpones the idle timer; nothing that is read does.
  pub idle_timer-step :
      (event : Event) (s t : Session)
      → requested event ≡ []
      → step host deserialize now event s ≡ done t
      → t.idle_timer ≡ s.idle_timer
  unfolding step release
  idle_timer-step event s t q e =
      let (s', es, same) = step-done host deserialize now event s t e in
      ap (λ r. r.idle_timer) (sym same) ∙ handle_idle event s s' q es

  -- When the idle timer of a session fires that has a read pending, no login and one idle wait, the
  -- session is stopped and destroyed, and the handler of the aborted read then looks at its socket.
  pub idle_timer_dangles :
      (later word : ℕ) (s : Session)
      → s.destroyed ≡ false
      → s.stopped ≡ false
      → s.logins ≡ []
      → s.pending.idle_waits ≡ 1
      → 0 < s.pending.lengths
      → (t : Session) × (step host deserialize now (idle_timer success) s ≡ done t)
        × IsEnabled (length_read operation_aborted word) t
        × (step host deserialize later (length_read operation_aborted word) t ≡ fault)
  unfolding step handle on_idle_timer release on_length
  idle_timer_dangles later word s alive going no_login one_wait reading = (
    release
        (stop (record s { pending = record s.pending { idle_waits = s.pending.idle_waits - 1 } })),
    refl,
    ground arith,
    ground arith,
  )

-- ===== src/Connection/Events/Stays.antt =====
-- A session that is stopped stays stopped.
use scalable_tcp_server.Base.{ℕ, ◌-◌, ◌≡◌, true, List, [], ◌∷◌, Outcome, done, arith}
use mathlib.Core.Path.{subst}
use scalable_tcp_server.Word.{Host}
use scalable_tcp_server.Auth.{LoginRequest}
use scalable_tcp_server.Connection.{Session, ErrorCode, success, operation_aborted, failed}
use scalable_tcp_server.Connection.Lifecycle.{on_idle_timer, release, write_packet}
use scalable_tcp_server.Connection.Reader.{
  on_length, on_body, body_was_read, read_length, on_read_timer,
}
use scalable_tcp_server.Connection.Writer.{on_post, on_written, on_write_timer}
use scalable_tcp_server.Connection.Events.{
  Event, length_read, body_read, written, posted, read_timer, write_timer, idle_timer,
  packet_to_write, transmit, run_post, handle, step,
}
use scalable_tcp_server.Connection.Events.Invariant.{body_was_read-done, step-done}

module _ (host : Host) (deserialize : List ℕ → Outcome LoginRequest) (now : ℕ) where
  written_stays :
      (ec : ErrorCode) (ws : List (List ℕ)) (s t : Session)
      → s.stopped ≡ true
      → on_written now ec (transmit ec s ws) ≡ done t
      → t.stopped ≡ true
  unfolding on_written
  written_stays success [] s t h e = ground arith
  written_stays operation_aborted [] s t h e = ground arith
  written_stays failed [] s t h e = ground arith
  written_stays success (w ∷ ws) s t h e = ground arith
  written_stays operation_aborted (w ∷ ws) s t h e = ground arith
  written_stays failed (w ∷ ws) s t h e = ground arith

  posted_stays :
      (ps : List (List ℕ)) (s t : Session)
      → s.stopped ≡ true
      → run_post now s ps ≡ done t
      → t.stopped ≡ true
  unfolding on_post
  posted_stays [] s t h e = ground arith
  posted_stays (p ∷ ps) s t h e = ground arith

  handle_stays :
      (event : Event) (s t : Session)
      → s.stopped ≡ true
      → handle host deserialize now event s ≡ done t
      → t.stopped ≡ true
  unfolding handle on_length on_body read_length on_read_timer on_write_timer on_idle_timer
      write_packet
  handle_stays (length_read success word) s t h e = ground arith
  handle_stays (length_read operation_aborted word) s t h e = ground arith
  handle_stays (length_read failed word) s t h e = ground arith
  handle_stays (body_read success body) s t h e = ground (
    arith,
    body_was_read-done host deserialize now body
        (record s { pending = record s.pending { bodies = s.pending.bodies - 1 } }) t,
  )
  handle_stays (body_read operation_aborted body) s t h e = unfold body_was_read in ground arith
  handle_stays (body_read failed body) s t h e = unfold body_was_read in ground arith
  handle_stays (written ec) s t h e = written_stays ec s.pending.writes s t h e
  handle_stays posted s t h e = posted_stays s.pending.posts s t h e
  handle_stays (packet_to_write packet) s t h e = cc
  handle_stays (read_timer success) s t h e = ground arith
  handle_stays (read_timer operation_aborted) s t h e = ground arith
  handle_stays (read_timer failed) s t h e = ground arith
  handle_stays (write_timer success) s t h e = ground arith
  handle_stays (write_timer operation_aborted) s t h e = ground arith
  handle_stays (write_timer failed) s t h e = ground arith
  handle_stays (idle_timer success) s t h e = ground arith
  handle_stays (idle_timer operation_aborted) s t h e = ground arith
  handle_stays (idle_timer failed) s t h e = ground arith

  pub step_stays :
      (event : Event) (s t : Session)
      → s.stopped ≡ true
      → step host deserialize now event s ≡ done t
      → t.stopped ≡ true
  step_stays event s t h e =
      let (s', es, same) = step-done host deserialize now event s t e in
      subst (λ u. u.stopped ≡ true) same (released s' (handle_stays event s s' h es))
    where
      released : (s : Session) → s.stopped ≡ true → (release s).stopped ≡ true
      released s h = unfold release in h

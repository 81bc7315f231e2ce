-- ===== src/Connection/Events/Room.antt =====
-- That the body which is read has room in the reader's buffer.
use scalable_tcp_server.Base.{
  ℕ, ◌+◌, ◌-◌, ◌≤◌, ◌<◌, ◌≡◌, ◌≢◌, refl, inl, inr, Bool, true, false, ltb, if◌then◌else◌, not,
  fault, Bool-cases, List, [], ◌∷◌, length, Outcome, done, arith,
}
use mathlib.Core.Path.{subst}
use scalable_tcp_server.Word.{Host, ntohl}
use scalable_tcp_server.Packet.{packet_length, max_packet_size}
use scalable_tcp_server.Auth.{LoginRequest}
use scalable_tcp_server.Connection.{Session, ErrorCode, success, operation_aborted, failed}
use scalable_tcp_server.Connection.Lifecycle.{stop, on_idle_timer, write_packet, release, construct}
use scalable_tcp_server.Connection.Reader.{
  on_length, length_was_read, read_length, on_body, body_was_read, on_read_timer,
}
use scalable_tcp_server.Connection.Reader.Buffer.{read_body-length}
use scalable_tcp_server.Connection.Writer.{on_post, on_written, on_write_timer}
use scalable_tcp_server.Connection.Events.{
  Event, length_read, body_read, written, posted, read_timer, write_timer, idle_timer,
  packet_to_write, IsEnabled, transmit, run_post, handle, step, start, Reach, here, next,
}
use scalable_tcp_server.Connection.Events.Invariant.{
  Inv, start-Inv, Reach-keeps, body_was_read-done, step-done,
}

-- The buffer is exactly the four bytes of the length and the body that is read behind them.
abbrev pub HasRoom : Session → Type 0
HasRoom s =
    0 < s.pending.bodies
    → (length s.packet_buffer ≡ s.packet_length + packet_length)
      × (s.packet_length ≤ max_packet_size)

module _ (host : Host) (deserialize : List ℕ → Outcome LoginRequest) (now : ℕ) where
  stop-HasRoom : (s : Session) → HasRoom s → HasRoom (stop s)
  unfolding stop
  stop-HasRoom s v = ground arith

  length_was_read-HasRoom :
      (ec : ErrorCode) (word : ℕ) (s : Session)
      → s.pending.bodies ≡ 0
      → HasRoom (length_was_read host now ec word s)
  unfolding length_was_read
  length_was_read-HasRoom success word s no_body =
      let s' = record s { packet_length = ntohl host word } in
      elim (Bool-cases (ltb max_packet_size (ntohl host word))) [
        | inl over ↦ rw over (stop-HasRoom s' (λ more. absurd (omega (arith, more, no_body))))
        | inr fits ↦
            let within : ntohl host word ≤ max_packet_size = ground arith in
            rw fits (λ more. (read_body-length host now s' within, within))
      ]
  length_was_read-HasRoom operation_aborted word s no_body = λ more. absurd (omega arith)
  length_was_read-HasRoom failed word s no_body = stop-HasRoom s (λ more. absurd (omega arith))

  on_length-HasRoom :
      (ec : ErrorCode) (word : ℕ) (s t : Session)
      → s.pending.bodies ≡ 0
      → on_length host now ec word s ≡ done t
      → HasRoom t
  unfolding on_length
  on_length-HasRoom ec word s t no_body e =
      by_guards s.destroyed s.is_open (length_was_read host now ec word s)
        (length_was_read-HasRoom ec word s no_body) e
    where
      by_guards :
          (gone up : Bool) (read : Session)
          → HasRoom read
          → (if gone then fault else if not up then done s else done read) ≡ done t
          → HasRoom t
      by_guards true up read v e = cc
      by_guards false true read v e = let same : read ≡ t = cc in subst HasRoom same v
      by_guards false false read v e = λ more. absurd (ground arith)

  written-HasRoom :
      (ec : ErrorCode) (ws qs : List (List ℕ)) (s t : Session)
      → HasRoom s
      → s.queue_buffer ≡ qs
      → ws ≢ []
      → on_written now ec (transmit ec s ws) ≡ done t
      → HasRoom t
  unfolding on_written
  written-HasRoom ec [] qs s t v eq en e = absurd (en refl)
  written-HasRoom success (w ∷ ws) [] s t v eq en e = ground arith
  written-HasRoom success (w ∷ ws) (q ∷ qs) s t v eq en e = ground arith
  written-HasRoom operation_aborted (w ∷ ws) qs s t v eq en e = ground arith
  written-HasRoom failed (w ∷ ws) qs s t v eq en e = ground arith

  posted-HasRoom :
      (ps qs : List (List ℕ)) (s t : Session)
      → HasRoom s
      → s.queue_buffer ≡ qs
      → run_post now s ps ≡ done t
      → HasRoom t
  unfolding on_post
  posted-HasRoom [] qs s t v eq e = ground arith
  posted-HasRoom (p ∷ ps) [] s t v eq e = ground arith
  posted-HasRoom (p ∷ ps) (q ∷ qs) s t v eq e = ground arith

  handle-HasRoom :
      (event : Event) (s t : Session)
      → Inv s
      → HasRoom s
      → IsEnabled event s
      → handle host deserialize now event s ≡ done t
      → HasRoom t
  unfolding handle on_body read_length on_read_timer on_write_timer on_idle_timer write_packet
  handle-HasRoom (length_read ec word) s t i v en e =
      on_length-HasRoom ec word
        (record s { pending = record s.pending { lengths = s.pending.lengths - 1 } }) t
        (omega (arith, i.one_read, en.0)) e
  handle-HasRoom (body_read success body) s t i v en e = ground (
    arith,
    i.one_read,
    body_was_read-done host deserialize now body
        (record s { pending = record s.pending { bodies = s.pending.bodies - 1 } }) t,
  )
  handle-HasRoom (body_read operation_aborted body) s t i v en e =
      unfold body_was_read in ground arith
  handle-HasRoom (body_read failed body) s t i v en e = unfold body_was_read in ground arith
  handle-HasRoom (written ec) s t i v en e =
      written-HasRoom ec s.pending.writes s.queue_buffer s t v refl en.0 e
  handle-HasRoom posted s t i v en e = posted-HasRoom s.pending.posts s.queue_buffer s t v refl e
  handle-HasRoom (read_timer success) s t i v en e = ground arith
  handle-HasRoom (read_timer operation_aborted) s t i v en e = ground arith
  handle-HasRoom (read_timer failed) s t i v en e = ground arith
  handle-HasRoom (write_timer success) s t i v en e = ground arith
  handle-HasRoom (write_timer operation_aborted) s t i v en e = ground arith
  handle-HasRoom (write_timer failed) s t i v en e = ground arith
  handle-HasRoom (idle_timer success) s t i v en e = ground arith
  handle-HasRoom (idle_timer operation_aborted) s t i v en e = ground arith
  handle-HasRoom (idle_timer failed) s t i v en e = ground arith
  handle-HasRoom (packet_to_write packet) s t i v en e = ground arith

  step-HasRoom :
      (event : Event) (s t : Session)
      → Inv s
      → HasRoom s
      → IsEnabled event s
      → step host deserialize now event s ≡ done t
      → HasRoom t
  unfolding step release
  step-HasRoom event s t i v en e =
      let (s', es, same) = step-done host deserialize now event s t e in
      subst HasRoom same (handle-HasRoom event s s' i v en es)

start-HasRoom :
    (now seconds_idle read_seconds seconds_write : ℕ) (s t : Session)
    → construct true seconds_idle read_seconds seconds_write ≡ done s
    → start true now s ≡ done t
    → HasRoom t
unfolding construct start
start-HasRoom now seconds_idle read_seconds seconds_write s t es et = ground arith

Reach-keeps_room :
    {host : Host} {deserialize : List ℕ → Outcome LoginRequest} {initial : Session}
    {packets : List (List ℕ)} {s : Session}
    → Inv initial
    → HasRoom initial
    → Reach host deserialize initial packets s
    → HasRoom s
Reach-keeps_room i v here = v
Reach-keeps_room {host} {deserialize} i v (next {s} {t} r now event en e) =
    step-HasRoom host deserialize now event s t (Reach-keeps i r) (Reach-keeps_room i v r) en e

-- For a session that is built and started on objects that a `shared_ptr` owns, in every state that it
-- reaches: while a body is read, the reader's buffer has exactly the length of the body and the four
-- bytes in front of it, so what is read into it fits, and the length is at most MAX_PACKET_SIZE.
pub Reach-HasRoom :
    {host : Host} {deserialize : List ℕ → Outcome LoginRequest} {built initial s : Session}
    {packets : List (List ℕ)}
    → (now seconds_idle read_seconds seconds_write : ℕ)
    → construct true seconds_idle read_seconds seconds_write ≡ done built
    → start true now built ≡ done initial
    → Reach host deserialize initial packets s
    → 0 < s.pending.bodies
    → (length s.packet_buffer ≡ s.packet_length + packet_length)
      × (s.packet_length ≤ max_packet_size)
Reach-HasRoom {built} {initial} now idle read write eb ei r =
    Reach-keeps_room (start-Inv now idle read write built initial eb ei).0
      (start-HasRoom now idle read write built initial eb ei) r

-- ===== src/Connection/Events/Order.antt =====
-- The packets that a connection is asked to write go out in that order, each once.
use scalable_tcp_server.Base.{
  ℕ, ◌-◌, ◌≡◌, ◌≢◌, refl, sym, ap, ◌∙◌, true, List, [], ◌∷◌, ◌++◌, append_assoc, append-nil,
  Outcome, done, arith,
}
use mathlib.Core.Path.{subst}
use scalable_tcp_server.Word.{Host}
use scalable_tcp_server.Auth.{LoginRequest}
use scalable_tcp_server.Connection.{Session, ErrorCode, success, operation_aborted, failed}
use scalable_tcp_server.Connection.Lifecycle.{construct, on_idle_timer, write_packet, release}
use scalable_tcp_server.Connection.Reader.{
  on_length, read_length, on_body, body_was_read, on_read_timer,
}
use scalable_tcp_server.Connection.Writer.{on_post, on_written, on_write_timer}
use scalable_tcp_server.Connection.Events.{
  Event, length_read, body_read, written, posted, read_timer, write_timer, idle_timer,
  packet_to_write, start, IsEnabled, MayEnd, transmit, run_post, requested, handle, step, Reach,
  here, next,
}
use scalable_tcp_server.Connection.Events.Invariant.{
  Inv, body_was_read-done, step-done, step-done, Reach-keeps, start-Inv,
}

-- What has gone out, what is queued, and what is posted to the queue.
abbrev pub outbox : Session → List (List ℕ)
outbox s = s.transmitted ++ (s.queue_buffer ++ s.pending.posts)

abbrev Keeps : List (List ℕ) → Session → Session → Type 0
Keeps more s t = t.is_open ≡ true → (s.is_open ≡ true) × (outbox t ≡ outbox s ++ more)

same_outbox :
    (s t : Session)
    → s.is_open ≡ true
    → t.transmitted ≡ s.transmitted
    → t.queue_buffer ≡ s.queue_buffer
    → t.pending.posts ≡ s.pending.posts
    → (s.is_open ≡ true) × (outbox t ≡ outbox s ++ [])
same_outbox s t op et eq ep = (op, rw (et, eq, ep) (sym (append-nil _)))

abbrev IsQuiet : Event → Type 0
IsQuiet (written ec) = ⊥
IsQuiet posted = ⊥
IsQuiet (packet_to_write packet) = ⊥
IsQuiet _ = Unit {0}

module _ (host : Host) (deserialize : List ℕ → Outcome LoginRequest) (now : ℕ) where
  -- Events that touch neither the socket's output nor the queue.
  quiet :
      (event : Event) (s t : Session)
      → handle host deserialize now event s ≡ done t
      → t.is_open ≡ true
      → IsQuiet event
      → (s.is_open ≡ true)
        × (t.transmitted ≡ s.transmitted)
        × (t.queue_buffer ≡ s.queue_buffer)
        × (t.pending.posts ≡ s.pending.posts)
  unfolding handle on_length on_read_timer on_write_timer on_idle_timer on_body read_length
  quiet (length_read success word) s t e op q = ground arith
  quiet (length_read operation_aborted word) s t e op q = ground arith
  quiet (length_read failed word) s t e op q = ground arith
  quiet (body_read success body) s t e op q = ground (
    arith,
    body_was_read-done host deserialize now body
        (record s { pending = record s.pending { bodies = s.pending.bodies - 1 } }) t,
  )
  quiet (body_read operation_aborted body) s t e op q = unfold body_was_read in ground arith
  quiet (body_read failed body) s t e op q = unfold body_was_read in ground arith
  quiet (written ec) s t e op q = absurd q
  quiet posted s t e op q = absurd q
  quiet (read_timer success) s t e op q = ground arith
  quiet (read_timer operation_aborted) s t e op q = ground arith
  quiet (read_timer failed) s t e op q = ground arith
  quiet (write_timer success) s t e op q = ground arith
  quiet (write_timer operation_aborted) s t e op q = ground arith
  quiet (write_timer failed) s t e op q = ground arith
  quiet (idle_timer success) s t e op q = ground arith
  quiet (idle_timer operation_aborted) s t e op q = ground arith
  quiet (idle_timer failed) s t e op q = ground arith
  quiet (packet_to_write p) s t e op q = absurd q

  -- A write that ends: the packet at the front of the queue moves to the socket.
  written_moves :
      (ec : ErrorCode) (ws qs : List (List ℕ)) (s t : Session)
      → Inv s
      → s.pending.writes ≡ ws
      → s.queue_buffer ≡ qs
      → ws ≢ []
      → MayEnd ec s
      → on_written now ec (transmit ec s ws) ≡ done t
      → t.is_open ≡ true
      → (s.is_open ≡ true)
        × (t.pending.posts ≡ s.pending.posts)
        × (t.transmitted ++ t.queue_buffer ≡ s.transmitted ++ s.queue_buffer)
  unfolding on_written
  written_moves ec [] qs s t v ew eq en may e op = absurd (en refl)
  written_moves success (w ∷ ws) [] s t v ew eq en may e op = ground arith
  written_moves success (w ∷ ws) (q ∷ qs) s t v ew eq en may e op =
      ground (arith, append_assoc s.transmitted (w ∷ []) qs)
  written_moves operation_aborted (w ∷ ws) qs s t v ew eq en may e op = ground arith
  written_moves failed (w ∷ ws) qs s t v ew eq en may e op = ground arith

  posted_moves :
      (ps : List (List ℕ)) (s t : Session)
      → s.pending.posts ≡ ps
      → ps ≢ []
      → run_post now s ps ≡ done t
      → t.is_open ≡ true
      → (s.is_open ≡ true)
        × (t.transmitted ≡ s.transmitted)
        × (t.queue_buffer ++ t.pending.posts ≡ s.queue_buffer ++ s.pending.posts)
  unfolding on_post
  posted_moves [] s t ep en e op = absurd (en refl)
  posted_moves (p ∷ ps) s t ep en e op = ground (arith, append_assoc s.queue_buffer (p ∷ []) ps)

  quiet_Keeps :
      (event : Event) (s t : Session)
      → handle host deserialize now event s ≡ done t
      → IsQuiet event
      → Keeps [] s t
  quiet_Keeps event s t e q op =
      let (os, et, eq, ep) = quiet event s t e op q in same_outbox s t os et eq ep

  handle-Keeps :
      (event : Event) (s t : Session)
      → Inv s
      → IsEnabled event s
      → handle host deserialize now event s ≡ done t
      → Keeps (requested event) s t
  handle-Keeps (written ec) s t v (en, may) e op =
      unfold handle in
      let (os, ep, em) =
        written_moves ec s.pending.writes s.queue_buffer s t v refl refl en may e op in
      let moved : (t.transmitted ++ t.queue_buffer) ++ t.pending.posts
          ≡ (s.transmitted ++ s.queue_buffer) ++ s.pending.posts =
        rw (em, ep) in
      (
        os,
        sym (append_assoc t.transmitted t.queue_buffer t.pending.posts)
            ∙ moved
            ∙ append_assoc s.transmitted s.queue_buffer s.pending.posts
            ∙ sym (append-nil _),
      )
  handle-Keeps posted s t v en e op =
      unfold handle in
      let (os, et, em) = posted_moves s.pending.posts s t refl en e op in
      (os, rw (et, em) (sym (append-nil _)))
  handle-Keeps (packet_to_write packet) s t v en e op =
      unfold handle write_packet in
      let same : write_packet now packet s ≡ t = cc in
      subst (λ t. t.is_open ≡ true → (s.is_open ≡ true) × (outbox t ≡ outbox s ++ packet ∷ [])) same
        (λ op. (op, simp append_assoc)) op
  handle-Keeps (length_read ec word) s t v en e op = quiet_Keeps (length_read ec word) s t e tt op
  handle-Keeps (body_read ec body) s t v en e op = quiet_Keeps (body_read ec body) s t e tt op
  handle-Keeps (read_timer ec) s t v en e op = quiet_Keeps (read_timer ec) s t e tt op
  handle-Keeps (write_timer ec) s t v en e op = quiet_Keeps (write_timer ec) s t e tt op
  handle-Keeps (idle_timer ec) s t v en e op = quiet_Keeps (idle_timer ec) s t e tt op

  -- One event moves packets along, and adds the one that is asked for at the end.
  step-Keeps :
      (event : Event) (s t : Session)
      → Inv s
      → IsEnabled event s
      → step host deserialize now event s ≡ done t
      → Keeps (requested event) s t
  unfolding release
  step-Keeps event s t v en e =
      let (s', es, same) = step-done host deserialize now event s t e in
      subst (Keeps (requested event) s) same (handle-Keeps event s s' v en es)

Reach-keeps_outbox :
    {host : Host} {deserialize : List ℕ → Outcome LoginRequest} {initial : Session}
    {packets : List (List ℕ)} {s : Session}
    → Inv initial
    → Reach host deserialize initial packets s
    → s.is_open ≡ true
    → outbox s ≡ outbox initial ++ packets
Reach-keeps_outbox v here op = sym (append-nil _)
Reach-keeps_outbox {host} {deserialize} {initial} v
      (next {packets = before} {s} {t} r now event en e) op =
    let (os, eo) = step-Keeps host deserialize now event s t (Reach-keeps v r) en e op in
    eo
    ∙ ap (λ ps. ps ++ requested event) (Reach-keeps_outbox v r os)
    ∙ append_assoc (outbox initial) before (requested event)

-- For a session that is built and started on objects that a `shared_ptr` owns, in every state that it
-- reaches with its socket open: the packets transmitted, then those in the writer's queue, then those
-- posted to the strand are the packets that it was asked to write, each once and in that order.
pub Reach-outbox :
    {host : Host} {deserialize : List ℕ → Outcome LoginRequest} {built initial s : Session}
    {packets : List (List ℕ)}
    → (now seconds_idle read_seconds seconds_write : ℕ)
    → construct true seconds_idle read_seconds seconds_write ≡ done built
    → start true now built ≡ done initial
    → Reach host deserialize initial packets s
    → s.is_open ≡ true
    → outbox s ≡ packets
Reach-outbox {built} {initial} {packets} now seconds_idle read_seconds seconds_write eb ei r op =
    let (v, empty) = start-Inv now seconds_idle read_seconds seconds_write built initial eb ei in
    Reach-keeps_outbox v r op ∙ ap (λ ps. ps ++ packets) empty

-- ===== src/Connection/Events/Invariant.antt =====
-- What holds in every state that a connection reaches, in whatever order its operations complete.
use scalable_tcp_server.Base.{
  ℕ, ◌+◌, ◌-◌, ◌≤◌, ◌<◌, ◌≡◌, ◌≢◌, ◌⊎◌, refl, inl, inr, true, false, not, if◌then◌else◌, List, [],
  ◌∷◌, ◌++◌, List-cases, Option, none, some, take, Outcome, done, >>=-eq-done, arith,
}
use mathlib.Core.Path.{subst}
use scalable_tcp_server.Word.{Host}
use scalable_tcp_server.Packet.Parse.{parse}
use scalable_tcp_server.Auth.{LoginRequest}
use scalable_tcp_server.Auth.Handler.{route}
use scalable_tcp_server.Connection.{Session, ErrorCode, success, operation_aborted, failed}
use scalable_tcp_server.Connection.Lifecycle.{stop, on_idle_timer, write_packet, release, construct}
use scalable_tcp_server.Connection.Reader.{
  on_length, on_packet, read_length, on_body, body_was_read, on_read_timer, filled, spawned,
}
use scalable_tcp_server.Connection.Writer.{on_post, on_written, on_write_timer}
use scalable_tcp_server.Connection.Events.{
  Event, length_read, body_read, written, posted, read_timer, write_timer, idle_timer,
  packet_to_write, IsEnabled, MayEnd, transmit, run_post, handle, step, start, Reach, here, next,
}

pub record Inv (s : Session) : Type 0 where
  -- at most one read is pending
  pub one_read : s.pending.lengths + s.pending.bodies ≤ 1
  -- at most one write is pending: of the packet at the front of the queue, while the socket is open
  pub one_write :
      (s.pending.writes ≡ take 1 s.queue_buffer) ⊎ ((s.is_open ≡ false) × (s.pending.writes ≡ []))
  pub open_lem : s.is_open ≡ not s.stopped
  pub held : s.in_sessions ≡ not s.stopped
  pub once : s.on_close_calls ≡ (if s.stopped then 1 else 0)
  -- only a stopped session is destroyed
  pub alive : s.destroyed ≡ true → s.stopped ≡ true

stop-Inv : (s : Session) → Inv s → Inv (stop s)
unfolding stop
stop-Inv s v = ground arith

release-Inv : (s : Session) → Inv s → Inv (release s)
unfolding release
release-Inv s v = ground arith

module _ (host : Host) (deserialize : List ℕ → Outcome LoginRequest) (now : ℕ) where
  on_packet-done :
      (packet : List ℕ) (s t : Session)
      → on_packet host deserialize packet s ≡ done t
      → (l : List LoginRequest) × (t ≡ record s { logins = l })
  unfolding on_packet
  on_packet-done packet s t e =
      let (p, ep, e') = >>=-eq-done (parse host packet) _ e in
      let (l, el, e'') = >>=-eq-done (route deserialize p) _ e' in kept l s t e''
    where
      kept :
          (o : Option LoginRequest) (s t : Session)
          → done (spawned o s) ≡ done t
          → (l : List LoginRequest) × (t ≡ record s { logins = l })
      kept none s t e = (s.logins, ground arith)
      kept (some r) s t e = (s.logins ++ r ∷ [], ground arith)

  written-Inv :
      (ec : ErrorCode) (ws qs : List (List ℕ)) (s t : Session)
      → Inv s
      → s.pending.writes ≡ ws
      → s.queue_buffer ≡ qs
      → ws ≢ []
      → MayEnd ec s
      → on_written now ec (transmit ec s ws) ≡ done t
      → Inv t
  unfolding on_written
  written-Inv ec [] qs s t v ew eq en may e = absurd (en refl)
  written-Inv success (w ∷ ws) [] s t v ew eq en may e = ground arith
  written-Inv success (w ∷ ws) (q ∷ qs) s t v ew eq en may e = ground arith
  written-Inv operation_aborted (w ∷ ws) qs s t v ew eq en may e = ground arith
  written-Inv failed (w ∷ ws) qs s t v ew eq en may e = ground arith

  posted-Inv :
      (s t : Session)
      → Inv s
      → s.pending.posts ≢ []
      → run_post now s s.pending.posts ≡ done t
      → Inv t
  unfolding on_post
  posted-Inv s t v en e = elim (List-cases s.pending.posts) [
    | inl none_left ↦ absurd (en none_left)
    | inr (w, ws, ew) ↦ elim (List-cases s.queue_buffer) [
      | inl eq ↦ (ground arith)
      | inr (q, qs, eq) ↦ (ground arith)
    ]
  ]

  pub body_was_read-done :
      (body : List ℕ) (s t : Session)
      → body_was_read host deserialize now success body s ≡ done t
      → (l : List LoginRequest) × (t
          ≡ read_length now (record s { logins = l; packet_buffer = [] }))
  unfolding body_was_read
  body_was_read-done body s t e =
      let (s', es, e') = >>=-eq-done (on_packet host deserialize (filled body s) s) _ e in
      let (l, el) = on_packet-done (filled body s) s s' es in (l, cc)

  body-Inv :
      (ec : ErrorCode) (body : List ℕ) (s t : Session)
      → Inv s
      → (0 < s.pending.bodies) × MayEnd ec s
      → on_body host deserialize now ec body
          (record s { pending = record s.pending { bodies = s.pending.bodies - 1 } })
        ≡ done t
      → Inv t
  unfolding on_body read_length
  body-Inv success body s t v en e = ground (
    arith,
    body_was_read-done body
        (record s { pending = record s.pending { bodies = s.pending.bodies - 1 } }) t,
  )
  body-Inv operation_aborted body s t v en e = unfold body_was_read in ground arith
  body-Inv failed body s t v en e = unfold body_was_read in ground arith

  handle-Inv :
      (event : Event) (s t : Session)
      → Inv s
      → IsEnabled event s
      → handle host deserialize now event s ≡ done t
      → Inv t
  unfolding handle on_length on_read_timer on_written on_write_timer on_idle_timer on_post
      write_packet
  handle-Inv (length_read success word) s t v en e = ground arith
  handle-Inv (length_read operation_aborted word) s t v en e = ground arith
  handle-Inv (length_read failed word) s t v en e = ground arith
  handle-Inv (body_read ec body) s t v en e = body-Inv ec body s t v en e
  handle-Inv (written ec) s t v en e =
      written-Inv ec s.pending.writes s.queue_buffer s t v refl refl en.0 en.1 e
  handle-Inv posted s t v en e = posted-Inv s t v en e
  handle-Inv (read_timer success) s t v en e = ground arith
  handle-Inv (read_timer operation_aborted) s t v en e = ground arith
  handle-Inv (read_timer failed) s t v en e = ground arith
  handle-Inv (write_timer success) s t v en e = ground arith
  handle-Inv (write_timer operation_aborted) s t v en e = ground arith
  handle-Inv (write_timer failed) s t v en e = ground arith
  handle-Inv (idle_timer success) s t v en e = ground arith
  handle-Inv (idle_timer operation_aborted) s t v en e = ground arith
  handle-Inv (idle_timer failed) s t v en e = ground arith
  handle-Inv (packet_to_write packet) s t v en e = ground arith

  -- A step is the event's handler, and the release of the pointers that it held.
  pub step-done :
      (event : Event) (s t : Session)
      → step host deserialize now event s ≡ done t
      → (s' : Session) × (handle host deserialize now event s ≡ done s') × (release s' ≡ t)
  unfolding step
  step-done event s t e =
      let (s', es, et) =
        >>=-eq-done (handle host deserialize now event s) (λ r. done (release r)) e in
      (s', es, cc)

  pub step-Inv :
      (event : Event) (s t : Session)
      → Inv s
      → IsEnabled event s
      → step host deserialize now event s ≡ done t
      → Inv t
  step-Inv event s t v en e =
      let (s', es, same) = step-done event s t e in
      subst Inv same (release-Inv s' (handle-Inv event s s' v en es))

pub start-Inv :
    (now seconds_idle read_seconds seconds_write : ℕ) (s t : Session)
    → construct true seconds_idle read_seconds seconds_write ≡ done s
    → start true now s ≡ done t
    → Inv t × (t.transmitted ++ (t.queue_buffer ++ t.pending.posts) ≡ [])
unfolding construct start
start-Inv now seconds_idle read_seconds seconds_write s t es et = ground arith

pub Reach-keeps :
    {host : Host} {deserialize : List ℕ → Outcome LoginRequest} {initial : Session}
    {packets : List (List ℕ)} {s : Session}
    → Inv initial
    → Reach host deserialize initial packets s
    → Inv s
Reach-keeps v here = v
Reach-keeps {host} {deserialize} v (next {s} {t} r now event en e) =
    step-Inv host deserialize now event s t (Reach-keeps v r) en e

-- For a session that is built and started on objects that a `shared_ptr` owns, in every state that it
-- reaches: at most one read is pending; the writes pending are the front of the queue alone, or none
-- if the socket is closed; the socket is open, and the session held by the server, exactly as long as
-- it is not stopped; the server was told once of a stop, and before it never; and a session that is
-- destroyed is stopped.
pub Reach-Inv :
    {host : Host} {deserialize : List ℕ → Outcome LoginRequest} {built initial s : Session}
    {packets : List (List ℕ)}
    → (now seconds_idle read_seconds seconds_write : ℕ)
    → construct true seconds_idle read_seconds seconds_write ≡ done built
    → start true now built ≡ done initial
    → Reach host deserialize initial packets s
    → Inv s
Reach-Inv {built} {initial} now seconds_idle read_seconds seconds_write eb ei r =
    Reach-keeps (start-Inv now seconds_idle read_seconds seconds_write built initial eb ei).0 r

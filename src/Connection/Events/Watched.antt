-- ===== src/Connection/Events/Watched.antt =====
-- What a connection with an open socket waits for.
use scalable_tcp_server.Base.{
  ℕ, ◌+◌, ◌-◌, ◌≡◌, ◌≢◌, refl, Bool, true, false, not, is_empty, List, [], ◌∷◌, Outcome, done,
  arith,
}
use mathlib.Core.Path.{subst}
use scalable_tcp_server.Word.{Host}
use scalable_tcp_server.Auth.{LoginRequest}
use scalable_tcp_server.Connection.{Session, Expiry, ErrorCode, success, operation_aborted, failed}
use scalable_tcp_server.Connection.Lifecycle.{on_idle_timer, write_packet, release, construct}
use scalable_tcp_server.Connection.Reader.{
  on_length, read_length, on_body, body_was_read, on_read_timer,
}
use scalable_tcp_server.Connection.Writer.{on_post, on_written, on_write_timer}
use scalable_tcp_server.Connection.Events.{
  Event, length_read, body_read, written, posted, read_timer, write_timer, idle_timer,
  packet_to_write, IsEnabled, MayEnd, transmit, run_post, handle, step, start, Reach, here, next,
}
use scalable_tcp_server.Connection.Events.Invariant.{
  Inv, start-Inv, Reach-keeps, body_was_read-done, step-done,
}

abbrev pub armed : Expiry → Bool
armed Expiry.never = false
armed (Expiry.at time) = true

pub record IsWatched (s : Session) : Type 0 where
  -- one read is pending, of a length or of a body, under a deadline
  pub reads : s.pending.lengths + s.pending.bodies ≡ 1
  pub read_deadline : armed s.read_timer ≡ true
  -- there is a deadline for a write exactly if there is something to write
  pub write_deadline : armed s.write_timer ≡ not (is_empty s.queue_buffer)
  -- each of the three timers is waited for
  pub waits : (s.pending.read_waits ≡ 1) × (s.pending.write_waits ≡ 1) × (s.pending.idle_waits ≡ 1)

abbrev WatchedIfOpen : Session → Type 0
WatchedIfOpen s = s.is_open ≡ true → IsWatched s

module _ (host : Host) (deserialize : List ℕ → Outcome LoginRequest) (now : ℕ) where
  written_watched :
      (ec : ErrorCode) (ws qs : List (List ℕ)) (s t : Session)
      → Inv s
      → WatchedIfOpen s
      → s.queue_buffer ≡ qs
      → ws ≢ []
      → MayEnd ec s
      → on_written now ec (transmit ec s ws) ≡ done t
      → WatchedIfOpen t
  unfolding on_written
  written_watched ec [] qs s t i v eq en may e up = absurd (en refl)
  written_watched success (w ∷ ws) [] s t i v eq en may e up = ground arith
  written_watched success (w ∷ ws) (q ∷ []) s t i v eq en may e up = ground arith
  written_watched success (w ∷ ws) (q ∷ p ∷ qs) s t i v eq en may e up = ground arith
  written_watched operation_aborted (w ∷ ws) qs s t i v eq en may e up = ground arith
  written_watched failed (w ∷ ws) qs s t i v eq en may e up = ground arith

  posted_watched :
      (ps qs : List (List ℕ)) (s t : Session)
      → Inv s
      → WatchedIfOpen s
      → s.queue_buffer ≡ qs
      → ps ≢ []
      → run_post now s ps ≡ done t
      → WatchedIfOpen t
  unfolding on_post
  posted_watched [] qs s t i v eq en e up = absurd (en refl)
  posted_watched (p ∷ ps) [] s t i v eq en e up = ground arith
  posted_watched (p ∷ ps) (q ∷ qs) s t i v eq en e up = ground arith

  handle-IsWatched :
      (event : Event) (s t : Session)
      → Inv s
      → WatchedIfOpen s
      → IsEnabled event s
      → handle host deserialize now event s ≡ done t
      → WatchedIfOpen t
  unfolding handle on_length on_body read_length on_read_timer on_write_timer on_idle_timer
      write_packet
  handle-IsWatched (length_read success word) s t i v en e up = ground arith
  handle-IsWatched (length_read operation_aborted word) s t i v en e up = ground arith
  handle-IsWatched (length_read failed word) s t i v en e up = ground arith
  handle-IsWatched (body_read success body) s t i v en e up = ground (
    arith,
    body_was_read-done host deserialize now body
        (record s { pending = record s.pending { bodies = s.pending.bodies - 1 } }) t,
  )
  handle-IsWatched (body_read operation_aborted body) s t i v en e up =
      unfold body_was_read in ground arith
  handle-IsWatched (body_read failed body) s t i v en e up = unfold body_was_read in ground arith
  handle-IsWatched (written ec) s t i v (en, may) e up =
      written_watched ec s.pending.writes s.queue_buffer s t i v refl en may e up
  handle-IsWatched posted s t i v en e up =
      posted_watched s.pending.posts s.queue_buffer s t i v refl en e up
  handle-IsWatched (read_timer success) s t i v en e up = ground arith
  handle-IsWatched (read_timer operation_aborted) s t i v en e up = ground arith
  handle-IsWatched (read_timer failed) s t i v en e up = ground arith
  handle-IsWatched (write_timer success) s t i v en e up = ground arith
  handle-IsWatched (write_timer operation_aborted) s t i v en e up = ground arith
  handle-IsWatched (write_timer failed) s t i v en e up = ground arith
  handle-IsWatched (idle_timer success) s t i v en e up = ground arith
  handle-IsWatched (idle_timer operation_aborted) s t i v en e up = ground arith
  handle-IsWatched (idle_timer failed) s t i v en e up = ground arith
  handle-IsWatched (packet_to_write packet) s t i v en e up = ground arith

  release-IsWatched : (s : Session) → WatchedIfOpen s → WatchedIfOpen (release s)
  unfolding release
  release-IsWatched s v up = ground arith

  step-IsWatched :
      (event : Event) (s t : Session)
      → Inv s
      → WatchedIfOpen s
      → IsEnabled event s
      → step host deserialize now event s ≡ done t
      → WatchedIfOpen t
  unfolding step
  step-IsWatched event s t i v en e =
      let (s', es, same) = step-done host deserialize now event s t e in
      subst WatchedIfOpen same (release-IsWatched s' (handle-IsWatched event s s' i v en es))

start-IsWatched :
    (now seconds_idle read_seconds seconds_write : ℕ) (s t : Session)
    → construct true seconds_idle read_seconds seconds_write ≡ done s
    → start true now s ≡ done t
    → IsWatched t
unfolding construct start
start-IsWatched now seconds_idle read_seconds seconds_write s t es et = ground arith

Reach-keeps_watched :
    {host : Host} {deserialize : List ℕ → Outcome LoginRequest} {initial : Session}
    {packets : List (List ℕ)} {s : Session}
    → Inv initial
    → IsWatched initial
    → Reach host deserialize initial packets s
    → WatchedIfOpen s
Reach-keeps_watched i v here up = v
Reach-keeps_watched {host} {deserialize} i v (next {s} {t} r now event en e) up =
    step-IsWatched host deserialize now event s t (Reach-keeps i r) (Reach-keeps_watched i v r) en e
      up

-- For a session that is built and started on objects that a `shared_ptr` owns, in every state that it
-- reaches with its socket open: exactly one read is pending, and the read timer is set; the write timer
-- is set exactly if the queue is not empty; and exactly one wait is pending for each of the read timer,
-- the write timer and the idle timer.
pub Reach-IsWatched :
    {host : Host} {deserialize : List ℕ → Outcome LoginRequest} {built initial s : Session}
    {packets : List (List ℕ)}
    → (now seconds_idle read_seconds seconds_write : ℕ)
    → construct true seconds_idle read_seconds seconds_write ≡ done built
    → start true now built ≡ done initial
    → Reach host deserialize initial packets s
    → s.is_open ≡ true
    → IsWatched s
Reach-IsWatched {built} {initial} now idle read write eb ei r =
    Reach-keeps_watched (start-Inv now idle read write built initial eb ei).0
      (start-IsWatched now idle read write built initial eb ei) r

-- ===== src/Connection/Events/Leak.antt =====
-- What is never released: the wait on the writer's timer, which keeps the writer.
use scalable_tcp_server.Base.{
  ℕ, ◌-◌, ◌≡◌, ◌⊎◌, inl, inr, refl, ap, ◌∙◌, take, Bool, true, false, List, [], ◌∷◌, Outcome, done,
  arith,
}
use mathlib.Core.Path.{subst}
use scalable_tcp_server.Word.{Host}
use scalable_tcp_server.Auth.{LoginRequest}
use scalable_tcp_server.Connection.{Session, Expiry, ErrorCode, success, operation_aborted, failed}
use scalable_tcp_server.Connection.Lifecycle.{on_idle_timer, release, construct}
use scalable_tcp_server.Connection.Reader.{
  on_length, on_body, body_was_read, read_length, on_read_timer,
}
use scalable_tcp_server.Connection.Writer.{on_written, on_write_timer}
use scalable_tcp_server.Connection.Events.{
  Event, length_read, body_read, written, posted, read_timer, write_timer, idle_timer,
  packet_to_write, IsEnabled, transmit, requested, handle, step, start, Reach,
}
use scalable_tcp_server.Connection.Events.Invariant.{body_was_read-done, step-done, Reach-Inv}
use scalable_tcp_server.Connection.Events.Watched.{armed, Reach-IsWatched}
use scalable_tcp_server.Connection.Events.Elapse.{
  HasExpired, Overdue, MayFire, MayStay, IsTimely, Elapses, here, next,
}

-- Nothing is to be written, or can be; the timer for writes is not set, and waited for.
record IsLeft (s : Session) : Type 0 where
  no_write : (s.is_open ≡ false) ⊎ ((s.queue_buffer ≡ []) × (s.pending.writes ≡ []))
  quiet : s.pending.posts ≡ []
  unset : s.write_timer ≡ Expiry.never
  waits : s.pending.write_waits ≡ 1

never_expired : (now : ℕ) (x : Expiry) → x ≡ Expiry.never → HasExpired now x → ⊥
never_expired now Expiry.never unset h = h
never_expired now (Expiry.at time) unset h = cc

never_fired :
    (now : ℕ) (overdue : Bool) {x : Expiry}
    → x ≡ Expiry.never
    → overdue ≡ false
    → MayFire now overdue success x
    → ⊥
never_fired now overdue {x} unset punctual (inl h) = never_expired now x unset h
never_fired now overdue unset punctual (inr h) = cc

never_left :
    (now : ℕ) (before after : Bool) (x : Expiry)
    → x ≡ Expiry.never
    → before ≡ false
    → MayStay now before after x
    → after ≡ false
never_left now before false x unset punctual stay = refl
never_left now before true x unset punctual stay =
    absurd (never_fired now before unset punctual (stay refl))

module _ (host : Host) (deserialize : List ℕ → Outcome LoginRequest) (now : ℕ) where
  written-IsLeft :
      (ec : ErrorCode) (ws : List (List ℕ)) (s t : Session)
      → IsLeft s
      → s.is_open ≡ false
      → on_written now ec (transmit ec s ws) ≡ done t
      → IsLeft t
  unfolding on_written
  written-IsLeft success [] s t v shut e = ground arith
  written-IsLeft operation_aborted [] s t v shut e = ground arith
  written-IsLeft failed [] s t v shut e = ground arith
  written-IsLeft success (w ∷ ws) s t v shut e = ground arith
  written-IsLeft operation_aborted (w ∷ ws) s t v shut e = ground arith
  written-IsLeft failed (w ∷ ws) s t v shut e = ground arith

  handle-IsLeft :
      (o : Overdue) (event : Event) (s t : Session)
      → IsLeft s
      → requested event ≡ []
      → IsEnabled event s
      → IsTimely now o event s
      → o.write ≡ false
      → handle host deserialize now event s ≡ done t
      → IsLeft t
  unfolding handle on_length on_body read_length on_read_timer on_write_timer on_idle_timer
  handle-IsLeft o (length_read success word) s t v q en timely punctual e = ground arith
  handle-IsLeft o (length_read operation_aborted word) s t v q en timely punctual e = ground arith
  handle-IsLeft o (length_read failed word) s t v q en timely punctual e = ground arith
  handle-IsLeft o (body_read success body) s t v q en timely punctual e = ground (
    arith,
    body_was_read-done host deserialize now body
        (record s { pending = record s.pending { bodies = s.pending.bodies - 1 } }) t,
  )
  handle-IsLeft o (body_read operation_aborted body) s t v q en timely punctual e =
      unfold body_was_read in ground arith
  handle-IsLeft o (body_read failed body) s t v q en timely punctual e =
      unfold body_was_read in ground arith
  handle-IsLeft o (written ec) s t v q en timely punctual e = elim v.no_write [
    | inl shut ↦ written-IsLeft ec s.pending.writes s t v shut e
    | inr (_, nothing) ↦ absurd (en.0 nothing)
  ]
  handle-IsLeft o posted s t v q en timely punctual e = absurd (en v.quiet)
  handle-IsLeft o (packet_to_write packet) s t v q en timely punctual e = cc
  handle-IsLeft o (read_timer success) s t v q en timely punctual e = ground arith
  handle-IsLeft o (read_timer operation_aborted) s t v q en timely punctual e = ground arith
  handle-IsLeft o (read_timer failed) s t v q en timely punctual e = ground arith
  handle-IsLeft o (write_timer success) s t v q en timely punctual e =
      absurd (never_fired now o.write v.unset punctual timely)
  handle-IsLeft o (write_timer operation_aborted) s t v q en timely punctual e = ground arith
  handle-IsLeft o (write_timer failed) s t v q en timely punctual e = absurd timely
  handle-IsLeft o (idle_timer success) s t v q en timely punctual e = ground arith
  handle-IsLeft o (idle_timer operation_aborted) s t v q en timely punctual e = ground arith
  handle-IsLeft o (idle_timer failed) s t v q en timely punctual e = ground arith

  step-IsLeft :
      (o : Overdue) (event : Event) (s t : Session)
      → IsLeft s
      → requested event ≡ []
      → IsEnabled event s
      → IsTimely now o event s
      → o.write ≡ false
      → step host deserialize now event s ≡ done t
      → IsLeft t
  step-IsLeft o event s t v q en timely punctual e =
      let (s', es, same) = step-done host deserialize now event s t e in
      subst IsLeft same (released s' (handle-IsLeft o event s s' v q en timely punctual es))
    where
      released : (s : Session) → IsLeft s → IsLeft (release s)
      released s v = unfold release in ground arith

Elapses-IsLeft :
    {host : Host} {deserialize : List ℕ → Outcome LoginRequest} {queued : Overdue} {s : Session}
    {left : Overdue} {t : Session} {now : ℕ}
    → IsLeft s
    → queued.write ≡ false
    → Elapses host deserialize queued s now left t
    → IsLeft t × (left.write ≡ false)
Elapses-IsLeft v punctual here = (v, punctual)
Elapses-IsLeft {host} {deserialize} v punctual
      (next {last} {before = o} {after = o'} {s} {t} r now event later q en timely e stay) =
    let (w, none_late) = Elapses-IsLeft v punctual r in
    (
      step-IsLeft host deserialize now o event s t w q en timely none_late e,
      never_left now o.write o'.write s.write_timer w.unset none_late stay.write,
    )

unarmed : (x : Expiry) → armed x ≡ false → x ≡ Expiry.never
unarmed Expiry.never h = refl
unarmed (Expiry.at time) h = cc

-- For a session that is built and started on objects that a `shared_ptr` owns: from every state that
-- it reaches with its socket open, its queue empty, nothing posted and no wait on the writer's timer
-- that had expired before the timer was last set still to complete, however long and in whatever
-- order its operations complete while nobody asks it to write, also after it is stopped and
-- destroyed, a wait on the writer's timer, whose handler holds the writer, is pending, and the timer
-- never expires.
pub Elapses-write_waits :
    {host : Host} {deserialize : List ℕ → Outcome LoginRequest} {built initial s t : Session}
    {packets : List (List ℕ)} {later : ℕ} {queued left : Overdue}
    → (now seconds_idle read_seconds seconds_write : ℕ)
    → construct true seconds_idle read_seconds seconds_write ≡ done built
    → start true now built ≡ done initial
    → Reach host deserialize initial packets s
    → s.is_open ≡ true
    → s.queue_buffer ≡ []
    → s.pending.posts ≡ []
    → queued.write ≡ false
    → Elapses host deserialize queued s later left t
    → (t.pending.write_waits ≡ 1) × (t.write_timer ≡ Expiry.never)
Elapses-write_waits {s} now idle read write eb ei r up nothing quiet punctual later =
    let i = Reach-Inv now idle read write eb ei r in
    let w = Reach-IsWatched now idle read write eb ei r up in
    let unset : armed s.write_timer ≡ false = w.write_deadline ∙ rw nothing refl in
    let (v, _) =
      Elapses-IsLeft
        (record {
          no_write =
              inr (nothing, elim i.one_write [ inl e ↦ e ∙ ap (take 1) nothing | inr (_, e) ↦ e ]);
          quiet = quiet;
          unset = unarmed s.write_timer unset;
          waits = w.waits.1;
        })
        punctual later in
    (v.waits, v.unset)

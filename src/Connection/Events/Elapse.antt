-- ===== src/Connection/Events/Elapse.antt =====
-- What becomes of a connection as time passes, and nobody asks it to write.
use scalable_tcp_server.Base.{
  ℕ, ◌-◌, ◌≤◌, ◌<◌, ◌≡◌, ◌∙◌, refl, ◌⊎◌, inl, inr, Bool, true, false, List, [], ◌∷◌, Outcome, done,
  arith,
}
use mathlib.Core.Path.{subst}
use scalable_tcp_server.Word.{Host}
use scalable_tcp_server.Auth.{LoginRequest}
use scalable_tcp_server.Connection.{Session, Expiry, ErrorCode, success, operation_aborted, failed}
use scalable_tcp_server.Connection.Lifecycle.{on_idle_timer, release}
use scalable_tcp_server.Connection.Reader.{
  on_length, on_body, body_was_read, read_length, on_read_timer,
}
use scalable_tcp_server.Connection.Writer.{on_post, on_written, on_write_timer}
use scalable_tcp_server.Connection.Events.{
  Event, length_read, body_read, written, posted, read_timer, write_timer, idle_timer,
  packet_to_write, IsEnabled, transmit, run_post, requested, handle, step,
}
use scalable_tcp_server.Connection.Events.Invariant.{body_was_read-done, step-done}
use scalable_tcp_server.Connection.Events.Idle.{idle_timer-step}

abbrev pub HasExpired : ℕ → Expiry → Type 0
HasExpired now Expiry.never = ⊥
HasExpired now (Expiry.at time) = time ≤ now

-- Of each timer, whether a wait that had expired before the timer was last set may still complete with
-- success: setting a timer cancels only the waits that have not expired.
pub record Overdue : Type 0 where
  pub read : Bool
  pub write : Bool
  pub idle : Bool

-- A wait on a timer ends well once the timer has expired, or if it is overdue; else it is cancelled.
abbrev pub MayFire : ℕ → (overdue : Bool) → ErrorCode → Expiry → Type 0
MayFire now overdue success expiry = HasExpired now expiry ⊎ (overdue ≡ true)
MayFire now overdue operation_aborted expiry = Unit {0}
MayFire now overdue failed expiry = ⊥

abbrev pub IsTimely : ℕ → Overdue → Event → Session → Type 0
IsTimely now o (read_timer ec) s = MayFire now o.read ec s.read_timer
IsTimely now o (write_timer ec) s = MayFire now o.write ec s.write_timer
IsTimely now o (idle_timer ec) s = MayFire now o.idle ec s.idle_timer
IsTimely now o _ s = Unit {0}

-- A wait can be overdue after a handler only if one was before, or if its timer had expired.
abbrev pub MayStay : ℕ → (before after : Bool) → Expiry → Type 0
MayStay now before after expiry = after ≡ true → HasExpired now expiry ⊎ (before ≡ true)

pub record Leaves (now : ℕ) (before : Overdue) (s : Session) (after : Overdue) : Type 0 where
  pub read : MayStay now before.read after.read s.read_timer
  pub write : MayStay now before.write after.write s.write_timer
  pub idle : MayStay now before.idle after.idle s.idle_timer

-- What a connection becomes up to a time, in whatever order its operations complete, and which waits
-- are overdue then.
pub data Elapses (host : Host) (deserialize : List ℕ → Outcome LoginRequest) (queued : Overdue)
    (initial : Session) : ℕ → Overdue → Session → Type 0 where
  here : {now : ℕ} → Elapses host deserialize queued initial now queued initial
  next :
      {last : ℕ} {before after : Overdue} {s t : Session}
      → Elapses host deserialize queued initial last before s
      → (now : ℕ) (event : Event) → last ≤ now
      → requested event ≡ []
      → IsEnabled event s
      → IsTimely now before event s
      → step host deserialize now event s ≡ done t
      → Leaves now before s after
      → Elapses host deserialize queued initial now after t

-- The session is not destroyed, and one wait on its idle timer, which expires at `time`, is pending.
record IsKept (time : ℕ) (s : Session) : Type 0 where
  set : s.idle_timer ≡ Expiry.at time
  waits : s.pending.idle_waits ≡ 1
  alive : s.destroyed ≡ false

not_expired : (now time : ℕ) (x : Expiry) → x ≡ Expiry.at time → now < time → HasExpired now x → ⊥
not_expired now time Expiry.never set before h = h
not_expired now time (Expiry.at t) set before h = ground arith

not_fired :
    (now time : ℕ) (overdue : Bool) {x : Expiry}
    → x ≡ Expiry.at time
    → now < time
    → overdue ≡ false
    → MayFire now overdue success x
    → ⊥
not_fired now time overdue {x} set before punctual (inl h) = not_expired now time x set before h
not_fired now time overdue set before punctual (inr h) = cc

stays_false :
    (now time : ℕ) (before after : Bool) (x : Expiry)
    → x ≡ Expiry.at time
    → now < time
    → before ≡ false
    → MayStay now before after x
    → after ≡ false
stays_false now time before false x set early punctual stay = refl
stays_false now time before true x set early punctual stay =
    absurd (not_fired now time before set early punctual (stay refl))

module _ (host : Host) (deserialize : List ℕ → Outcome LoginRequest) (now : ℕ) where
  body_waits :
      (ec : ErrorCode) (body : List ℕ) (s t : Session)
      → on_body host deserialize now ec body s ≡ done t
      → (t.pending.idle_waits ≡ s.pending.idle_waits) × (t.destroyed ≡ s.destroyed)
  unfolding on_body read_length
  body_waits success body s t e = ground (arith, body_was_read-done host deserialize now body s t)
  body_waits operation_aborted body s t e = unfold body_was_read in ground arith
  body_waits failed body s t e = unfold body_was_read in ground arith

  written_waits :
      (ec : ErrorCode) (ws : List (List ℕ)) (s t : Session)
      → on_written now ec (transmit ec s ws) ≡ done t
      → (t.pending.idle_waits ≡ s.pending.idle_waits) × (t.destroyed ≡ s.destroyed)
  unfolding on_written
  written_waits success [] s t e = ground arith
  written_waits operation_aborted [] s t e = ground arith
  written_waits failed [] s t e = ground arith
  written_waits success (w ∷ ws) s t e = ground arith
  written_waits operation_aborted (w ∷ ws) s t e = ground arith
  written_waits failed (w ∷ ws) s t e = ground arith

  posted_waits :
      (ps : List (List ℕ)) (s t : Session)
      → run_post now s ps ≡ done t
      → (t.pending.idle_waits ≡ s.pending.idle_waits) × (t.destroyed ≡ s.destroyed)
  unfolding on_post
  posted_waits [] s t e = ground arith
  posted_waits (p ∷ ps) s t e = ground arith

  -- Every handler but that of the idle timer leaves its wait.
  handle_waits :
      (o : Overdue) (event : Event) (time : ℕ) (s t : Session)
      → requested event ≡ []
      → IsTimely now o event s
      → o.idle ≡ false
      → s.idle_timer ≡ Expiry.at time
      → now < time
      → s.pending.idle_waits ≡ 1
      → handle host deserialize now event s ≡ done t
      → (t.pending.idle_waits ≡ 1) × (t.destroyed ≡ s.destroyed)
  unfolding handle on_length on_read_timer on_write_timer on_idle_timer
  handle_waits o (length_read success word) time s t q timely punctual set before one e =
      ground arith
  handle_waits o (length_read operation_aborted word) time s t q timely punctual set before one e =
      ground arith
  handle_waits o (length_read failed word) time s t q timely punctual set before one e =
      ground arith
  handle_waits o (body_read ec body) time s t q timely punctual set before one e = ground (
    arith,
    body_waits ec body (record s { pending = record s.pending { bodies = s.pending.bodies - 1 } }) t
        e,
  )
  handle_waits o (written ec) time s t q timely punctual set before one e =
      ground (arith, written_waits ec s.pending.writes s t e)
  handle_waits o posted time s t q timely punctual set before one e =
      ground (arith, posted_waits s.pending.posts s t e)
  handle_waits o (packet_to_write packet) time s t q timely punctual set before one e = cc
  handle_waits o (read_timer success) time s t q timely punctual set before one e = ground arith
  handle_waits o (read_timer operation_aborted) time s t q timely punctual set before one e =
      ground arith
  handle_waits o (read_timer failed) time s t q timely punctual set before one e = ground arith
  handle_waits o (write_timer success) time s t q timely punctual set before one e = ground arith
  handle_waits o (write_timer operation_aborted) time s t q timely punctual set before one e =
      ground arith
  handle_waits o (write_timer failed) time s t q timely punctual set before one e = ground arith
  handle_waits o (idle_timer success) time s t q timely punctual set before one e =
      absurd (not_fired now time o.idle set before punctual timely)
  handle_waits o (idle_timer operation_aborted) time s t q timely punctual set before one e =
      ground arith
  handle_waits o (idle_timer failed) time s t q timely punctual set before one e = absurd timely

  step-keeps :
      (o : Overdue) (event : Event) (time : ℕ) (s t : Session)
      → requested event ≡ []
      → IsTimely now o event s
      → o.idle ≡ false
      → now < time
      → IsKept time s
      → step host deserialize now event s ≡ done t
      → IsKept time t
  step-keeps o event time s t q timely punctual before k e =
      let (s', es, same) = step-done host deserialize now event s t e in
      let (waits, alive) =
        handle_waits o event time s s' q timely punctual k.set before k.waits es in
      let set = idle_timer-step host deserialize now event s t q e in
      record {
        set = set ∙ k.set;
        waits = subst (λ u. u.pending.idle_waits ≡ 1) same (unfold release in waits);
        alive =
            subst (λ u. u.destroyed ≡ false) same
              (unfold release in ground (arith, waits, alive, k.alive));
      }

-- Until the idle timer expires, a session is not destroyed, stopped or not, if one wait on this timer
-- is pending, no wait that had expired before the timer was last set is still to complete, and nobody
-- asks the session to write: stopping it cancels the wait, whose handler waits again.
pub Elapses-alive :
    (host : Host) (deserialize : List ℕ → Outcome LoginRequest) (queued left : Overdue)
    (s t : Session) (now time : ℕ)
    → s.destroyed ≡ false
    → s.pending.idle_waits ≡ 1
    → s.idle_timer ≡ Expiry.at time
    → queued.idle ≡ false
    → Elapses host deserialize queued s now left t
    → now < time
    → t.destroyed ≡ false
Elapses-alive host deserialize queued left s t now time alive waits set none_late r before =
    (keeps r before).0.alive
  where
    keeps :
        {now : ℕ} {o : Overdue} {t : Session}
        → Elapses host deserialize queued s now o t
        → now < time
        → IsKept time t × (o.idle ≡ false)
    keeps here before = (record { set = set; waits = waits; alive = alive }, none_late)
    keeps (next {last} {before = o} {after = o'} {s} {t} r now event later q en timely e stay)
          before =
        let (k, still) = keeps r (omega arith) in
        (
          step-keeps host deserialize now o event time s t q timely still before k e,
          stays_false now time o.idle o'.idle s.idle_timer k.set before still stay.idle,
        )

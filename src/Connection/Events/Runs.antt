-- ===== src/Connection/Events/Runs.antt =====
-- A connection as time passes, at concrete times.
use scalable_tcp_server.Base.{
  ℕ, ◌≡◌, refl, true, false, done, arith, codes, Bool, Option, none, some, ◌∷◌, [],
}
use scalable_tcp_server.Word.{little}
use scalable_tcp_server.Validation.{is_valid_user_id, is_user_id_char}
use scalable_tcp_server.Auth.{LoginRequest}
use scalable_tcp_server.Auth.Statement.{select, insert}
use scalable_tcp_server.Auth.Service.{session_id_literal, login}
use scalable_tcp_server.Connection.Peer.{Endpoint, get_remote_address, login-stopped}
use scalable_tcp_server.Connection.{Session, Expiry, operation_aborted, failed}
use scalable_tcp_server.Connection.Samples.{
  archive, started, closed, step-closed, construct-built, start-started,
}
use scalable_tcp_server.Connection.Lifecycle.{
  on_idle_timer, check_idle_timer, shared_from_this, release,
}
use scalable_tcp_server.Connection.Events.Leak.{Elapses-write_waits}
use scalable_tcp_server.Connection.Events.Elapse.{
  Overdue, Leaves, Elapses, here, next, Elapses-alive,
}
use scalable_tcp_server.Connection.Events.{length_read, idle_timer, handle, step, Reach}

-- The wait on the idle timer was cancelled, and its handler waits again.
step-cancelled : step little archive 30 (idle_timer operation_aborted) closed ≡ done closed
unfolding step handle on_idle_timer check_idle_timer shared_from_this release
step-cancelled = refl

-- No wait is overdue.
abbrev none_late : Overdue
none_late = record { read = false; write = false; idle = false }

none_late-Leaves : (now : ℕ) (s : Session) → Leaves now none_late s none_late
none_late-Leaves now s = record { read = λ e. cc; write = λ e. cc; idle = λ e. cc }

up_to_closed : Elapses little archive none_late started 30 none_late closed
up_to_closed =
    next {last = 10}
      (next {last = 0} here 10 (length_read failed 0) (omega arith) refl (omega arith) tt
        step-closed (none_late-Leaves 10 started))
      30 (idle_timer operation_aborted) (omega arith) refl (omega arith) tt step-cancelled
      (none_late-Leaves 30 closed)

-- The idle timer of the session expires at 60.
Elapses-alive_example : closed.destroyed ≡ false
Elapses-alive_example =
    Elapses-alive little archive none_late none_late started closed 30 60 refl refl refl refl
      up_to_closed (omega arith)

Elapses-write_waits_example : (closed.pending.write_waits ≡ 1) × (closed.write_timer ≡ Expiry.never)
Elapses-write_waits_example =
    Elapses-write_waits 0 60 30 10 construct-built start-started Reach.here refl refl refl refl
      up_to_closed

-- A client at 10.0.0.7 with a malformed user id that the database knows, and gone meanwhile.
abbrev client : Endpoint
client = record { address = codes "10.0.0.7"; port = 4000 }

abbrev asio : Bool → Option Endpoint
asio true = some client
asio false = none

abbrev nowhere : Endpoint
nowhere = record { address = codes "0.0.0.0"; port = 0 }

abbrev request : LoginRequest
request = record { user_id = codes "a b c"; password = codes "secret" }

login-stopped_example :
    login (done tt) (λ statement. done true) (get_remote_address asio nowhere closed) request []
    ≡ done (
      tt,
      select (codes "a b c") (codes "secret")
          ∷ insert session_id_literal (codes "a b c") (codes "0.0.0.0")
          ∷ [],
    )
unfolding is_valid_user_id is_user_id_char
login-stopped_example =
    login-stopped 0 60 30 10 construct-built start-started
      (Reach.next Reach.here 10 (length_read failed 0) (omega arith) step-closed) refl asio nowhere
      (done tt) (λ statement. done true) request refl refl refl refl

-- ===== src/Server/Runs.antt =====
-- A server of one session, and the theorems on the server at concrete inputs.
use scalable_tcp_server.Base.{
  ◌≡◌, ◌↔◌, refl, none, true, false, List, [], ◌∷◌, some, done, throws, bad_weak_ptr, arith, ◌≤◌, ℕ,
  ◌⊎◌, ◌+◌, system_error,
}
use scalable_tcp_server.Samples.{sample, sample-IsJson, shipped}
use scalable_tcp_server.Connection.{Session, Expiry}
use scalable_tcp_server.Server.Settings.{
  seconds, idle_key, read_key, write_key, IsUnsigned, IsSetting, configured_open,
  configured_open-eq,
}
use scalable_tcp_server.Connection.Lifecycle.{construct}
use scalable_tcp_server.Connection.Events.{start}
use scalable_tcp_server.Server.{
  Server, Timeouts, Event, socket, accepted, closed, add_connection, remove_session, stop,
  open_session, admit, after_add, on_accept, step, run,
}
use scalable_tcp_server.Server.Threads.{
  Shared, quiet, Moment, accepts, starts, inserts, start_session, move, Moves, here, next,
}
use scalable_tcp_server.Server.Startup.{idle_server, start_accept}
use scalable_tcp_server.Server.Threads.Chain.{
  Listening, listen, happen, Happens, handlers, clients, links,
}
use scalable_tcp_server.Server.Threads.Stopped.{stopped_accepts}
use scalable_tcp_server.Server.Threads.Held.{IsHeld, closed-IsHeld_iff}
use scalable_tcp_server.Server.Threads.Invariant.{idle}
use scalable_tcp_server.Server.Capacity.{run-full, on_accept-unowned}

abbrev timeouts : Timeouts
timeouts = record { idle = 60; read = 30; write = 10 }

abbrev empty : Server
empty = record { is_open = true; sessions = []; made = 0; active_connections = 0; max_sessions = 1 }

-- Two clients come, and the session of the first is closed.
abbrev events : List Event
events = accepted 0 (socket (some [])) ∷ accepted 1 (socket (some [])) ∷ closed 0 ∷ []

abbrev full : Server
full = record empty { made = 1; active_connections = 1 }

run-events : run true timeouts events empty ≡ done full
unfolding run step on_accept after_add add_connection admit open_session construct start
    remove_session
run-events = refl

-- A client that comes when the only session is closed.
run-late : run true timeouts (accepted 2 (socket (some [])) ∷ []) full ≡ done full
unfolding run step on_accept after_add add_connection
run-late = refl

run-full_example : (full.active_connections ≡ full.max_sessions) × (full.made ≡ full.made)
run-full_example =
    run-full true timeouts (accepted 2 (socket (some [])) ∷ []) full full refl run-late

on_accept-unowned_example :
    on_accept false timeouts.idle timeouts (socket (some [])) empty ≡ throws bad_weak_ptr
on_accept-unowned_example = on_accept-unowned timeouts 60 [] empty refl (omega arith)

-- A session that closes while the accept handler has yet to insert it.
abbrev started_one : Shared
started_one = record {
  server = record {
    is_open = true;
    sessions = [];
    made = 1;
    active_connections = 1;
    max_sessions = 2;
  };
  let_in = none;
  opening = some 0;
}

abbrev kept_one : Shared
kept_one = quiet (record started_one.server { sessions = 0 ∷ [] })

-- The client was let in, and has no session yet.
abbrev client_one : Shared
client_one = record {
  server = record started_one.server { made = 0 };
  let_in = some (some []);
  opening = none;
}

comes : move true timeouts (accepts (socket (some []))) (idle 2) ≡ done client_one
unfolding move add_connection
comes = refl

begins : move true timeouts (starts 0) client_one ≡ done started_one
unfolding move start_session open_session construct start
begins = refl

up_to_started :
    Moves true timeouts (idle 2) (starts 0 ∷ accepts (socket (some [])) ∷ []) started_one
up_to_started =
    next (next here (accepts (socket (some []))) (refl, refl) comes) (starts 0) ((λ e. cc), refl)
      begins

inserted :
    move true timeouts inserts (record started_one { server = remove_session 0 started_one.server })
    ≡ done kept_one
unfolding move remove_session
inserted = refl

keeps :
    Moves true timeouts
      (record started_one { server = remove_session 0 started_one.server })
      (inserts ∷ [])
      kept_one
keeps = next here inserts (λ e. cc) inserted

closed-IsHeld_iff_example : IsHeld 0 kept_one ↔ (started_one.opening ≡ some 0)
closed-IsHeld_iff_example =
    closed-IsHeld_iff true timeouts 2 0 up_to_started (omega arith) keeps ((λ e. cc), tt)

-- The timeouts of the shipped configuration.
configured_open-eq_example :
    ((IsUnsigned sample shipped idle_key
        ⊎ (IsUnsigned sample shipped read_key ⊎ IsUnsigned sample shipped write_key))
      × (configured_open sample shipped true 5 ≡ throws system_error))
    ⊎ ((i : ℕ) × (r : ℕ) × (w : ℕ) × IsSetting sample shipped idle_key 300 i
        × IsSetting sample shipped read_key 10 r
        × IsSetting sample shipped write_key 10 w
        × ((s : Session) × (configured_open sample shipped true 5 ≡ done s)
            × (open_session true 5
                  (record { idle = seconds i; read = seconds r; write = seconds w })
                ≡ done s)
            × (s.idle_timer ≡ Expiry.at (5 + seconds i))
            × (s.read_timer ≡ Expiry.at (5 + seconds r))
            × (s.seconds_write ≡ seconds w)))
configured_open-eq_example = configured_open-eq sample shipped sample-IsJson 5

-- A client is let in, and the server is stopped before it has a session; then it gets one all the same.
abbrev listening_one : Listening
listening_one = record { shared = client_one; accepting = false }

one_let_in :
    Happens true timeouts (listen (idle_server 2)) (accepts (socket (some [])) ∷ []) listening_one
unfolding happen listen start_accept add_connection
one_let_in = Happens.next Happens.here (accepts (socket (some []))) refl refl

abbrev stopped_one : Listening
stopped_one = record listening_one {
  shared = record client_one { server = stop client_one.server };
}

late_session :
    happen true timeouts (starts 0) stopped_one
    ≡ done (record {
      shared = record started_one { server = stop started_one.server };
      accepting = false;
    })
unfolding happen start_session open_session construct start stop
late_session = refl

stopped_accepts_example :
    (links listening_one ≤ 1)
    × (listening_one.shared.server.is_open ≡ true → links listening_one ≡ 1)
    × Moves true timeouts (idle 2) (accepts (socket (some [])) ∷ []) listening_one.shared
    × ((after : List Moment) (u : Listening)
        → Happens true timeouts stopped_one after u
        → (handlers after ≤ 1)
          × (u.shared.server.is_open ≡ false)
          × (u.shared.server.made + clients u.shared.let_in
              ≡ listening_one.shared.server.made + clients listening_one.shared.let_in))
stopped_accepts_example = stopped_accepts true timeouts 2 one_let_in

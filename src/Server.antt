-- ===== src/Server.antt =====
-- src/server/server.cpp: accepting connections and counting them. Sessions are named by numbers, in
-- the order in which they were made; time, sockets and logging are left out.
pub mod Capacity
pub mod Startup
pub mod Threads
pub mod Settings
pub mod Whole
mod Runs
use scalable_tcp_server.Base.{
  ℕ, suc, ◌+◌, ◌-◌, ◌^◌, ltb, leb, ◌==◌, Bool, true, false, if◌then◌else◌, List, [], ◌∷◌, Option,
  none, some, Outcome, done, throws, system_error, ◌>>=◌,
}
use scalable_tcp_server.Connection.{Session}
use scalable_tcp_server.Connection.Lifecycle.{construct}
use scalable_tcp_server.Connection.Events.{start}

pub record Server : Type 0 where
  pub is_open : Bool
  pub sessions : List ℕ
  pub made : ℕ
  pub active_connections : ℕ
  pub max_sessions : ℕ

-- `add_connection`, which the accept handler alone calls.
unfoldable pub add_connection : Server → Server × Bool
add_connection s =
    if leb s.max_sessions s.active_connections
    then (s, false)
    else (record s { active_connections = s.active_connections + 1 }, true)

-- `remove_connection`, which nothing calls.
unfoldable pub remove_connection : Server → Server
remove_connection s =
    if ltb 0 s.active_connections
    then record s { active_connections = s.active_connections - 1 }
    else s

abbrev pub erase : ℕ → List ℕ → List ℕ
erase i [] = []
erase i (j ∷ js) = if i == j then js else j ∷ erase i js

-- `remove_session`, the sessions' `on_close_`.
unfoldable pub remove_session : ℕ → Server → Server
remove_session i s = record s { sessions = erase i s.sessions }

-- `stop` closes the acceptor.
unfoldable pub stop : Server → Server
stop s = record s { is_open = false }

-- The timeouts of a session, in seconds.
pub record Timeouts : Type 0 where
  pub idle : ℕ
  pub read : ℕ
  pub write : ℕ

-- `make_shared<Session>` and `session->start()`. `owned` is whether a `shared_ptr` owns an object
-- while its own constructor runs.
unfoldable pub open_session : (owned : Bool) → ℕ → Timeouts → Outcome Session
open_session owned now t = do
  session ← construct owned t.idle t.read t.write
  start owned now session

-- What an `async_accept` ends in: an error, or a socket with its peer's address, which
-- `remote_endpoint()` throws for if the peer is gone.
pub data Accepted : Type 0 where
  error : Accepted
  socket : (peer : Option (List ℕ)) → Accepted

-- The socket of an admitted client, from `remote_endpoint` to the insertion into `sessions_`.
unfoldable pub admit : (owned : Bool) → ℕ → Timeouts → Option (List ℕ) → Server → Outcome Server
admit owned now t none s = throws system_error
admit owned now t (some peer) s = do
  session ← open_session owned now t
  done (record s { sessions = s.made ∷ s.sessions; made = s.made + 1 })

-- What follows `if(add_connection())`; both branches accept again.
unfoldable pub after_add :
    (owned : Bool) → ℕ → Timeouts → Option (List ℕ) → Server × Bool → Outcome (Server × Bool)
after_add owned now t peer (s, true) = admit owned now t peer s >>= λ s'. done (s', true)
after_add owned now t peer (s, false) = done (s, true)

-- The handler of `do_accept`: whether it accepts again, and the server.
unfoldable pub on_accept :
    (owned : Bool) → ℕ → Timeouts → Accepted → Server → Outcome (Server × Bool)
on_accept owned now t error s = if s.is_open then done (s, true) else done (s, false)
on_accept owned now t (socket peer) s =
    if s.is_open then after_add owned now t peer (add_connection s) else done (s, false)

-- What happens to the server: an accept completes, a session stops, or the server is stopped.
pub data Event : Type 0 where
  accepted : ℕ → Accepted → Event
  closed : ℕ → Event
  stops : Event

unfoldable pub step : (owned : Bool) → Timeouts → Event → Server → Outcome Server
step owned t (accepted now a) s = on_accept owned now t a s >>= λ (s', again). done s'
step owned t (closed i) s = done (remove_session i s)
step owned t stops s = done (stop s)

unfoldable pub run : (owned : Bool) → Timeouts → List Event → Server → Outcome Server
run owned t [] s = done s
run owned t (e ∷ es) s = step owned t e s >>= λ s'. run owned t es s'

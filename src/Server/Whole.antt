-- ===== src/Server/Whole.antt =====
-- The server of src/server/server.cpp with the sessions of src/session/session.cpp that it made: each
-- runs on its own strand, and calls the server back, by `on_close_`, when it stops. The accept
-- handler is one piece here; Server/Threads is about what comes in between.
pub mod Same
pub mod Accepts
pub mod Callback
pub mod Invariant
pub mod Holds
mod Runs
use scalable_tcp_server.Base.{
  ℕ, ◌+◌, ◌≡◌, ◌==◌, ltb, Bool, true, false, if◌then◌else◌, List, [], ◌∷◌, Option, none, some,
  Outcome, done, throws, system_error, ◌>>=◌,
}
use scalable_tcp_server.Word.{Host}
use scalable_tcp_server.Auth.{LoginRequest}
use scalable_tcp_server.Connection.{Session}
use scalable_tcp_server.Connection.Events.{IsEnabled}
use scalable_tcp_server.Connection.Events as Strand
use scalable_tcp_server.Server.{
  Server, Timeouts, Accepted, error, socket, add_connection, remove_session, stop, open_session,
}
use scalable_tcp_server.Server.Startup.{idle_server}

-- The server, and every session that it made, by its number.
pub record Whole : Type 0 where
  pub server : Server
  pub client : ℕ → Option Session

abbrev pub idle : ℕ → Whole
idle n = record { server = idle_server n; client = λ i. none }

abbrev pub put : ℕ → Session → (ℕ → Option Session) → ℕ → Option Session
put i s f k = if k == i then some s else f k

-- `sessions_.insert(session)`, of the session that was made and started.
abbrev pub insert_client : Whole → Session → Whole
insert_client w session = record {
  server = record w.server {
    sessions = w.server.made ∷ w.server.sessions;
    made = w.server.made + 1;
  };
  client = put w.server.made session w.client;
}

-- The socket of an admitted client.
unfoldable pub admit_client :
    (owned : Bool) → ℕ → Timeouts → Option (List ℕ) → Whole → Outcome Whole
admit_client owned now t none w = throws system_error
admit_client owned now t (some peer) w =
    open_session owned now t >>= λ session. done (insert_client w session)

unfoldable pub after_adding :
    (owned : Bool) → ℕ → Timeouts → Option (List ℕ) → Server × Bool → Whole → Outcome Whole
unfolding admit_client
after_adding owned now t peer (s, true) w = admit_client owned now t peer (record w { server = s })
after_adding owned now t peer (s, false) w = done (record w { server = s })

-- The handler of `do_accept`.
unfoldable pub accept_client : (owned : Bool) → ℕ → Timeouts → Accepted → Whole → Outcome Whole
unfolding after_adding
accept_client owned now t error w = done w
accept_client owned now t (socket peer) w =
    if w.server.is_open then after_adding owned now t peer (add_connection w.server) w else done w

-- The callback: `remove_session` is called once `stop` has called `on_close_`.
abbrev pub called_back : ℕ → (before after : Session) → Server → Server
called_back i before after server =
    if ltb before.on_close_calls after.on_close_calls then remove_session i server else server

abbrev pub continued : ℕ → (before : Session) → Whole → Session → Whole
continued i before w after = record {
  server = called_back i before after w.server;
  client = put i after w.client;
}

pub data Event : Type 0 where
  accepted : ℕ → Accepted → Event
  -- an operation of the session of that number completes
  completes : ℕ → (i : ℕ) → Strand.Event → Event
  stops : Event

module _ (host : Host) (deserialize : List ℕ → Outcome LoginRequest) (owned : Bool)
    (t : Timeouts) where
  -- An event on the strand of a session.
  unfoldable pub run_strand : ℕ → (i : ℕ) → Strand.Event → Option Session → Whole → Outcome Whole
  run_strand now i event none w = done w
  run_strand now i event (some s) w =
      Strand.step host deserialize now event s >>= λ s'. done (continued i s w s')

  unfoldable pub occur : Event → Whole → Outcome Whole
  unfolding accept_client run_strand
  occur (accepted now a) w = accept_client owned now t a w
  occur (completes now i event) w = run_strand now i event (w.client i) w
  occur stops w = done (record w { server = stop w.server })

  abbrev pub CanOccur : Event → Whole → Type 0
  CanOccur (accepted now a) w = Unit {0}
  CanOccur (completes now i event) w = (s : Session) × (w.client i ≡ some s) × IsEnabled event s
  CanOccur stops w = Unit {0}

  -- What becomes of a server that has accepted nobody, in whatever order things happen.
  pub data Evolves (n : ℕ) : Whole → Type 0 where
    here : Evolves n (idle n)
    next :
        {w u : Whole}
        → Evolves n w
        → (event : Event) → CanOccur event w
        → occur event w ≡ done u
        → Evolves n u

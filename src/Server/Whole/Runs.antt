-- ===== src/Server/Whole/Runs.antt =====
-- A server whose one client comes and is gone.
use scalable_tcp_server.Base.{
  ℕ, ◌≤◌, ◌≡◌, ◌↔◌, refl, true, false, List, length, some, done, arith, [], ◌∷◌,
}
use scalable_tcp_server.Word.{little}
use scalable_tcp_server.Connection.{Session, failed}
use scalable_tcp_server.Connection.Lifecycle.{construct}
use scalable_tcp_server.Connection.Events.{length_read, start, Reach}
use scalable_tcp_server.Connection.Samples.{archive, started, closed, step-closed}
use scalable_tcp_server.Server.{Timeouts, socket, add_connection, remove_session, open_session}
use scalable_tcp_server.Server.Startup.{idle_server}
use scalable_tcp_server.Server.Threads.Invariant.{contains, Distinct}
use scalable_tcp_server.Server.Whole.{
  Whole, idle, put, accepted, completes, accept_client, after_adding, admit_client, run_strand,
  occur, here, next,
}
use scalable_tcp_server.Server.Whole.Holds.{Evolves-holds}

abbrev timeouts : Timeouts
timeouts = record { idle = 60; read = 30; write = 10 }

abbrev with_client : Whole
with_client = record {
  server = record (idle_server 2) { sessions = 0 ∷ []; made = 1; active_connections = 1 };
  client = put 0 started (idle 2).client;
}

abbrev without_client : Whole
without_client = record {
  server = record with_client.server { sessions = [] };
  client = put 0 closed with_client.client;
}

comes :
    occur little archive true timeouts (accepted 0 (socket (some []))) (idle 2) ≡ done with_client
unfolding occur accept_client after_adding admit_client open_session construct start add_connection
comes = refl

goes :
    occur little archive true timeouts (completes 10 0 (length_read failed 0)) with_client
    ≡ done without_client
unfolding occur run_strand remove_session
goes = rw step-closed refl

Evolves-holds_example :
    ((i : ℕ)
      → (contains i without_client.server.sessions ≡ true)
        ↔ ((s : Session) × (without_client.client i ≡ some s) × (s.stopped ≡ false)))
    × Distinct without_client.server.sessions
    × (length without_client.server.sessions ≤ 2)
    × ((i : ℕ) (s : Session)
        → without_client.client i ≡ some s
        → (now : ℕ) × (initial : Session) × (packets : List (List ℕ)) × (open_session true now
              timeouts
            ≡ done initial)
          × Reach little archive initial packets s)
Evolves-holds_example = Evolves-holds little archive true timeouts 2 (
    next (next here (accepted 0 (socket (some []))) tt comes)
      (completes 10 0 (length_read failed 0)) (started, refl, omega arith) goes)

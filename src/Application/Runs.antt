-- ===== src/Application/Runs.antt =====
-- An application on the shipped configuration, and the theorems there.
use scalable_tcp_server.Base.{
  ℕ, ◌≡◌, ◌≤◌, ◌==◌, refl, Bool, true, false, if◌then◌else◌, not, List, [], ◌∷◌, length, Option,
  none, some, done, codes, same_text, split_last,
}
use scalable_tcp_server.Files.{Source, read_file, read_blocks}
use scalable_tcp_server.Config.{get_int, get_string, get_bool, find_key, load_file}
use scalable_tcp_server.Logger.{Logger, LogLevel, get_level, new_logger, get_file_folders}
use scalable_tcp_server.Server.{Timeouts, Server, Event, run, stop}
use scalable_tcp_server.Server.Startup.{
  Network, start_accept, start_workers, make_threads, joined, terminated, size_of_int, idle_server,
  new_server, listen_on, new_server-run,
}
use scalable_tcp_server.Samples.{
  sample, sample-IsJson, shipped, end, config_json, sample_parse, find_member,
}
use scalable_tcp_server.Application.{
  Application, Signal, make_params, check_folders, build, new_application, run_application, signals,
}
use scalable_tcp_server.Application.Signals.{IsRunning, any_stops, last_loaded, signals_lem}
use scalable_tcp_server.Application.Parts.{IsParams, IsLogger, IsServer}
use scalable_tcp_server.Config.Loading.{or_else, object_in}
use scalable_tcp_server.Application.Startup.{new_application-done}

-- A network on which every call succeeds.
abbrev network : Network
network = record {
  Address = List ℕ;
  make_address = λ host. done host;
  open_for = λ address. done tt;
  set_reuse_address = λ reuse. done tt;
  bind = λ address port. done tt;
  listen = λ backlog. done tt;
}

abbrev server : Server
server = idle_server 10000

shipped-server : new_server sample network shipped ≡ done server
unfolding new_server listen_on get_string get_int get_bool find_key find_member size_of_int
shipped-server = refl

new_server-run_example :
    (max_sessions : ℕ) × (get_int sample shipped (codes "sessions.max_sessions") 0
      ≡ done max_sessions)
    × ((owned : Bool) (t : Timeouts) (es : List Event) (u : Server)
        → run owned t es server ≡ done u
        → length u.sessions ≤ size_of_int max_sessions)
new_server-run_example = new_server-run sample network shipped server shipped-server

abbrev every : List ℕ → Bool
every dir = true

abbrev created : Logger
created = record {
  file = none;
  current_date = [];
  config_level = LogLevel.info;
  config_file = codes "logs/server.log";
  config_interval_seconds = 3;
  pathinfo = record { path = []; name = []; extention = [] };
}

abbrev app : Application sample
app = record {
  config = shipped;
  params = record {
    host = codes "host";
    port = 3306;
    database = codes "database";
    username = codes "username";
    password = codes "password";
  };
  logger = record created {
    pathinfo = record { path = codes "logs/"; name = codes "server"; extention = codes ".log" };
  };
  server = server;
  waiting = true;
  guarded = true;
  stopped = false;
}

shipped-app :
    new_application sample sample_parse network every end none (some config_json) ≡ done app
unfolding new_application load_file make_params build get_string get_int find_key find_member
    check_folders get_file_folders new_logger get_level same_text split_last new_server listen_on
    get_bool size_of_int read_file read_blocks
shipped-app = refl

new_application-done_example :
    IsRunning app
    × (object_in sample sample_parse (some config_json) ≡ some shipped)
    × IsParams sample (or_else end (object_in sample sample_parse none)) app.params
    × IsLogger sample shipped every app.logger
    × IsServer sample shipped network server
    × (start_accept app.server ≡ true)
new_application-done_example =
    new_application-done sample sample_parse network every end sample-IsJson none (some config_json)
      app shipped-app

-- Every thread can be made, or only the first.
abbrev all_spawn : ℕ → Bool
all_spawn i = true

abbrev one_spawns : ℕ → Bool
one_spawns i = i == 0

-- It serves its clients on the two threads of the shipped configuration.
runs : run_application sample sample_parse all_spawn app ≡ done (true, joined 2)
unfolding run_application start_accept start_workers make_threads get_int find_key find_member
    size_of_int
runs = refl

-- The second thread cannot be made.
stops_short : run_application sample sample_parse one_spawns app ≡ done (true, terminated)
unfolding run_application start_accept start_workers make_threads get_int find_key find_member
    size_of_int
stops_short = refl

-- The configuration is read again, and then the application is stopped; the last signal is late.
abbrev events : List (Signal × Option Source)
events = (Signal.sighup, some config_json) ∷ (Signal.sigterm, none) ∷ (Signal.sighup, none) ∷ []

signals_lem_example :
    (app' : Application sample) × (signals sample sample_parse events app ≡ done app')
    × (app'.stopped ≡ any_stops events)
    × (app'.waiting ≡ not (any_stops events))
    × (app'.guarded ≡ not (any_stops events))
    × (app'.server ≡ (if any_stops events then stop server else server))
    × (app'.params ≡ app.params)
    × (app'.config ≡ last_loaded sample sample_parse events shipped)
signals_lem_example =
    signals_lem sample sample-IsJson sample_parse events app
      (record { waits = refl; guards = refl; runs = refl })

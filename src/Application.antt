-- ===== src/Application.antt =====
-- src/application/application.cpp: how the parts are built, and what signals do. The log lines, the
-- database's pool and the threads are left out; the configuration file is what each load finds.
pub mod Parts
pub mod Startup
pub mod Main
pub mod Signals
mod Runs
use scalable_tcp_server.Base.{
  ℕ, Bool, true, false, not, if◌then◌else◌, List, [], ◌∷◌, Option, Outcome, done, throws, fault,
  Exception, stuck, runtime_error, throw_if, ◌>>=◌, ◌>>◌, codes,
}
use scalable_tcp_server.Word.{u16}
use scalable_tcp_server.Files.{Source}
use scalable_tcp_server.Config.{Json, get_string, get_int, load_file, reload}
use scalable_tcp_server.Logger.{Logger, new_logger, get_file_folders}
use scalable_tcp_server.Server.{Server, stop}
use scalable_tcp_server.Server.Startup.{Network, Workers, new_server, start_accept, start_workers}

-- The exceptions that are a `std::exception`.
abbrev pub is_std : Exception → Bool
is_std (Exception.string text) = false
is_std _ = true

-- `mysql::pool_params`, as far as it is set; the port is an `unsigned short`.
pub record PoolParams : Type 0 where
  pub host : List ℕ
  pub port : ℕ
  pub database : List ℕ
  pub username : List ℕ
  pub password : List ℕ

pub record Application (j : Json) : Type 0 where
  pub config : j.Object
  pub params : PoolParams
  pub logger : Logger
  pub server : Server
  -- the wait for a signal is pending
  pub waiting : Bool
  -- the work guard keeps the io_context running, and `io_context_.stop()` was called
  pub guarded : Bool
  pub stopped : Bool

pub data Signal : Type 0 where
  sighup sigint sigterm sigquit : Signal

module _ (j : Json) where
  unfoldable pub make_params : j.Object → Outcome PoolParams
  make_params root = do
    host ← get_string j root (codes "database.host") (codes "host")
    port ← get_int j root (codes "database.port") 3306
    database ← get_string j root (codes "database.database") (codes "database")
    username ← get_string j root (codes "database.username") (codes "username")
    password ← get_string j root (codes "database.password") (codes "password")
    done (record {
      host = host;
      port = u16 port;
      database = database;
      username = username;
      password = password;
    })

  -- `logger_->getFileFolders()` and the exception if it returns false.
  unfoldable pub check_folders : (creates : List ℕ → Bool) → Logger → Outcome Logger
  check_folders creates l = do
    let (l', made) = get_file_folders creates l
    throw_if (not made) "There is an error in path, name or extension of log file"
    done l'

  -- The constructor from what the second load returned.
  unfoldable pub build :
      (net : Network) (creates : List ℕ → Bool)
      → PoolParams
      → Bool × j.Object
      → Outcome (Application j)
  unfolding check_folders
  build net creates params (false, root) = throws (runtime_error "config.json file not found")
  build net creates params (true, root) = do
    created ← new_logger j root
    logger ← check_folders creates created
    server ← new_server j net root
    done (record {
      config = root;
      params = params;
      logger = logger;
      server = server;
      waiting = true;
      guarded = true;
      stopped = false;
    })

  module _ (parse : List ℕ → Option j.Value) where
    -- The constructor. The configuration is loaded when it is constructed, from `first`, and again in
    -- the body, from `second`; `empty` is an object with no members.
    unfoldable pub new_application :
        (net : Network) (creates : List ℕ → Bool) (empty : j.Object) (first second : Option Source)
        → Outcome (Application j)
    unfolding build
    new_application net creates empty first second = do
      (constructed, root) ← load_file j parse first empty
      params ← make_params root
      loaded ← load_file j parse second root
      build net creates params loaded

    -- `run`: whether the server waits for clients, and what becomes of the threads that serve them.
    unfoldable pub run_application : (spawns : ℕ → Bool) → Application j → Outcome (Bool × Workers)
    unfolding start_workers
    run_application spawns app =
        let accepting = start_accept app.server in
        start_workers j spawns app.config >>= λ workers. done (accepting, workers)

    unfoldable pub stop_application : Application j → Application j
    stop_application app = record app { server = stop app.server; guarded = false; stopped = true }

    -- `config_.reload()` in its `try` block, which keeps the configuration if it throws a
    -- `std::exception`, and then the next wait.
    unfoldable pub reload_config :
        Outcome (Bool × j.Object) → Application j → Outcome (Application j)
    reload_config (done (loaded, root)) app = done (record app { config = root; waiting = true })
    reload_config (throws e) app =
        if is_std e then done (record app { waiting = true }) else throws e
    reload_config fault app = fault
    reload_config stuck app = stuck

    -- The handler of the wait: a signal ended it. `file` is what a reload finds.
    unfoldable pub on_signal :
        Signal → (file : Option Source) → Application j → Outcome (Application j)
    unfolding stop_application reload_config reload
    on_signal sigterm file app = done (stop_application (record app { waiting = false }))
    on_signal sigint file app = done (stop_application (record app { waiting = false }))
    on_signal sigquit file app = done (stop_application (record app { waiting = false }))
    on_signal sighup file app =
        reload_config (reload j parse file app.config) (record app { waiting = false })

    -- A signal reaches the handler if a wait is pending; then the next one.
    unfoldable pub signals : List (Signal × Option Source) → Application j → Outcome (Application j)
    signals [] app = done app
    signals ((signal, file) ∷ rest) app =
        (if app.waiting then on_signal signal file app else done app) >>= signals rest

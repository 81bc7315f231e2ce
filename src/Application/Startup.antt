-- ===== src/Application/Startup.antt =====
-- What the constructor of the application has built when it returns, and what it does without a file.
use scalable_tcp_server.Base.{
  ℕ, ◌≡◌, refl, ap, sym, ◌∙◌, Bool, true, false, not, List, Option, none, some, done, throws,
  throw_if, runtime_error, ◌>>◌, >>=-eq-done, codes,
}
use mathlib.Core.Path.{ap₂, subst}
use scalable_tcp_server.Files.{Source}
use scalable_tcp_server.Config.{
  Json, find_key, find_split, find_child, split_key, value_or_null, get_string, get_int, load_file,
}
use scalable_tcp_server.Config.Getters.{IsJson}
use scalable_tcp_server.Config.Loading.{or_else, object_in, load_file-object, load_file-loaded}
use scalable_tcp_server.Logger.{Logger, new_logger, get_file_folders}
use scalable_tcp_server.Server.Startup.{Network, new_server, start_accept, new_server-accepts}
use scalable_tcp_server.Application.{
  Application, PoolParams, make_params, check_folders, build, new_application,
}
use scalable_tcp_server.Application.Signals.{IsRunning}
use scalable_tcp_server.Application.Parts.{
  IsParams, IsLogger, IsServer, make_params-IsParams, get_file_folders-IsLogger,
  new_server-IsServer,
}

module _ (j : Json) (parse : List ℕ → Option j.Value) (net : Network) (creates : List ℕ → Bool)
    (empty : j.Object) where
  module _ (laws : IsJson j) (nothing : (key : List ℕ) → j.find empty key ≡ none) where
    find_key-empty : (key : List ℕ) → find_key j empty key ≡ done j.null_value
    unfolding find_key find_split find_child
    find_key-empty key = by_parts (split_key key)
      where
        by_parts :
            (parts : Option (List ℕ × List ℕ)) → find_split j empty key parts ≡ done j.null_value
        by_parts none = ap (λ o. done (value_or_null j o)) (nothing key)
        by_parts (some (parent, child)) = ap (λ o. find_child j o child) (nothing parent)

    get_string-empty : (key text : List ℕ) → get_string j empty key text ≡ done text
    unfolding get_string
    get_string-empty key text = rw (find_key-empty key, laws.null_kind) refl

    get_int-empty : (key : List ℕ) (n : ℕ) → get_int j empty key n ≡ done n
    unfolding get_int
    get_int-empty key n = rw (find_key-empty key, laws.null_kind) refl

    make_params-empty :
        make_params j empty
        ≡ done (record {
          host = codes "host";
          port = 3306;
          database = codes "database";
          username = codes "username";
          password = codes "password";
        })
    unfolding make_params
    make_params-empty =
        rw
          (
            get_string-empty (codes "database.host") (codes "host"),
            get_int-empty (codes "database.port") 3306,
            get_string-empty (codes "database.database") (codes "database"),
            get_string-empty (codes "database.username") (codes "username"),
            get_string-empty (codes "database.password") (codes "password"),
          )
          refl

    -- With Boost.JSON as documented, an application whose configuration file cannot be opened throws.
    new_application-none :
        new_application j parse net creates empty none none
        ≡ throws (runtime_error "config.json file not found")
    unfolding new_application load_file build
    new_application-none = rw make_params-empty refl

  check_folders-done :
      (l l' : Logger)
      → check_folders j creates l ≡ done l'
      → get_file_folders creates l ≡ (l', true)
  unfolding check_folders
  check_folders-done l l' e = by_result (get_file_folders creates l) e
    where
      by_result :
          (r : Logger × Bool)
          → (throw_if (not (r.1)) "There is an error in path, name or extension of log file"
              >> done (r.0))
            ≡ done l'
          → r ≡ (l', true)
      by_result (l'', true) e = cc
      by_result (l'', false) e = cc

  -- What was built from a configuration.
  abbrev IsBuilt : PoolParams → Application j → Type 0
  IsBuilt params app =
      IsRunning app
      × (app.params ≡ params)
      × (new_server j net app.config ≡ done app.server)
      × ((created : Logger) × (new_logger j app.config ≡ done created)
          × (get_file_folders creates created ≡ (app.logger, true)))

  build-done :
      (params : PoolParams) (loaded : Bool) (root : j.Object) (app : Application j)
      → build j net creates params (loaded, root) ≡ done app
      → (loaded ≡ true) × (app.config ≡ root) × IsBuilt params app
  unfolding build
  build-done params false root app e = cc
  build-done params true root app e =
      let (created, ec, e₁) = >>=-eq-done (new_logger j root) _ e in
      let (logger, el, e₂) = >>=-eq-done (check_folders j creates created) _ e₁ in
      let (server, es, e₃) = >>=-eq-done (new_server j net root) _ e₂ in
      let built : (record {
        config = root;
        params = params;
        logger = logger;
        server = server;
        waiting = true;
        guarded = true;
        stopped = false;
      })
          ≡ app =
        cc in
      subst (λ a. (true ≡ true) × (a.config ≡ root) × IsBuilt params a) built
        (
          refl,
          refl,
          (
            record { waits = refl; guards = refl; runs = refl },
            refl,
            es,
            (created, ec, check_folders-done created logger el),
          ),
        )

  -- With Boost.JSON as documented, an application that the constructor returned is running, and:
  -- its configuration is the object in the file that the second load finds; the host, port,
  -- database name, user name and password of its database are, each under its own key or by its
  -- default, those of the object in the file that the first load found, or all the defaults if it
  -- found none; of the configuration, its logger has the level, the path of the file, whose
  -- extension is `.log` or `.txt` and whose folder, if any, could be made, and the interval, and
  -- its server has `sessions.max_sessions` as `size_t` for a limit, and its acceptor was bound to
  -- the configured address and port with the configured backlog and without `reuse_address`, under
  -- whose key a boolean has to stand, which is not used; and when it runs, it accepts clients.
  pub new_application-done :
      (laws : IsJson j) (first second : Option Source) (app : Application j)
      → new_application j parse net creates empty first second ≡ done app
      → IsRunning app
        × (object_in j parse second ≡ some app.config)
        × IsParams j (or_else empty (object_in j parse first)) app.params
        × IsLogger j app.config creates app.logger
        × IsServer j app.config net app.server
        × (start_accept app.server ≡ true)
  unfolding new_application
  new_application-done laws first second app e =
      let (ok, el) = load_file-object j parse laws empty first in
      let found = or_else empty (object_in j parse first) in
      let e₁ = rw el at e in
      let (params, ep, e₂) = >>=-eq-done (make_params j found) _ e₁ in
      let ((loaded, root), es, e₃) = >>=-eq-done (load_file j parse second found) _ e₂ in
      let (yes_loaded, same, (running, same_params, made, (created, ec, checked))) =
        build-done params loaded root app e₃ in
      let config =
        load_file-loaded j parse laws found second app.config
          (es ∙ ap₂ (λ b o. done (b, o)) yes_loaded (sym same)) in
      (
        running,
        config,
        rw same_params (make_params-IsParams j found laws params ep),
        get_file_folders-IsLogger j app.config laws creates created app.logger ec checked,
        new_server-IsServer j app.config laws net app.server made,
        new_server-accepts j net app.config app.server made,
      )

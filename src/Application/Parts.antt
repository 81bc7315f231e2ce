-- ===== src/Application/Parts.antt =====
-- What the parts that the constructor of src/application/application.cpp makes have from the
-- configuration.
use scalable_tcp_server.Base.{
  ℕ, ◌≡◌, ◌⊎◌, refl, sym, ap, ◌∙◌, Bool, true, false, is_empty, List, [], ◌∷◌, ◌++◌, Option, none,
  some, done, >>=-eq-done, codes, same_text→eq, arith,
}
use mathlib.Core.Path.{subst}
use scalable_tcp_server.Word.{u16}
use scalable_tcp_server.Config.{Json, get_string, get_int}
use scalable_tcp_server.Config.Getters.{IsJson}
use scalable_tcp_server.Config.Values.{
  TextAt, IntAt, HasBool, get_string-TextAt, get_int-IntAt, get_bool-HasBool,
}
use scalable_tcp_server.Logger.{
  Logger, LogPathInfo, slash, level_to_string, get_level, new_logger, check_path, keep_path,
  get_file_folders, split_name, file_name, parent_path,
}
use scalable_tcp_server.Logger.Levels.{get_level-done_iff}
use scalable_tcp_server.Server.{Server}
use scalable_tcp_server.Server.Startup.{
  Network, listen_on, new_server, idle_server, size_of_int, new_server-listens,
}
use scalable_tcp_server.Application.{PoolParams, make_params}

module _ (j : Json) (root : j.Object) where
  -- The parameters of the database, each from its own key.
  pub record IsParams (p : PoolParams) : Type 0 where
    pub host : TextAt j root (codes "database.host") (codes "host") p.host
    pub port : (port : ℕ) × IntAt j root (codes "database.port") 3306 port × (p.port ≡ u16 port)
    pub database : TextAt j root (codes "database.database") (codes "database") p.database
    pub username : TextAt j root (codes "database.username") (codes "username") p.username
    pub password : TextAt j root (codes "database.password") (codes "password") p.password

  -- The level's name stands under its key, and the path of the file under its own; this has an
  -- extension that a log file may have, and the folder in it, if it has one, could be made.
  pub record IsLogger (creates : List ℕ → Bool) (l : Logger) : Type 0 where
    pub level : TextAt j root (codes "logging.level") [] (level_to_string l.config_level)
    pub path : TextAt j root (codes "logging.file") [] l.config_file
    pub interval : IntAt j root (codes "logging.flush_interval_seconds") 0 l.config_interval_seconds
    pub closed : l.file ≡ none
    pub extension : (l.pathinfo.extention ≡ codes ".log") ⊎ (l.pathinfo.extention ≡ codes ".txt")
    pub name : split_name (file_name l.config_file) ≡ (l.pathinfo.name, l.pathinfo.extention)
    pub folder :
        ((is_empty (parent_path l.config_file) ≡ true) × (l.pathinfo.path ≡ []))
        ⊎ ((creates (parent_path l.config_file) ≡ true)
            × (l.pathinfo.path ≡ parent_path l.config_file ++ slash ∷ []))

  -- The server listens at the configured address, without the reuse of the address, which has to be
  -- configured, and has nobody, with the configured limit.
  pub record IsServer (net : Network) (s : Server) : Type 0 where
    pub host : List ℕ
    pub port : ℕ
    pub backlog : ℕ
    pub max_sessions : ℕ
    pub host_lem : TextAt j root (codes "server.address") [] host
    pub port_lem : IntAt j root (codes "server.port") 0 port
    pub reuse_lem : HasBool j root (codes "server.reuse_address")
    pub backlog_lem : IntAt j root (codes "server.backlog") 0 backlog
    pub max_lem : IntAt j root (codes "sessions.max_sessions") 0 max_sessions
    pub address : net.Address
    pub address_lem : net.make_address host ≡ done address
    pub not_reused : net.set_reuse_address false ≡ done tt
    pub bound : net.bind address (u16 port) ≡ done tt
    pub listens : net.listen backlog ≡ done tt
    pub idle : s ≡ idle_server (size_of_int max_sessions)

  module _ (laws : IsJson j) where
    pub make_params-IsParams : (p : PoolParams) → make_params j root ≡ done p → IsParams p
    unfolding make_params
    make_params-IsParams p e =
        let (host, eh, e₁) =
          >>=-eq-done (get_string j root (codes "database.host") (codes "host")) _ e in
        let (port, ep, e₂) = >>=-eq-done (get_int j root (codes "database.port") 3306) _ e₁ in
        let (database, ed, e₃) =
          >>=-eq-done (get_string j root (codes "database.database") (codes "database")) _ e₂ in
        let (username, eu, e₄) =
          >>=-eq-done (get_string j root (codes "database.username") (codes "username")) _ e₃ in
        let (password, ew, e₅) =
          >>=-eq-done (get_string j root (codes "database.password") (codes "password")) _ e₄ in
        let made : (record {
          host = host;
          port = u16 port;
          database = database;
          username = username;
          password = password;
        })
            ≡ p =
          cc in
        subst IsParams made (record {
          host = get_string-TextAt j root laws _ _ host eh;
          port = (port, get_int-IntAt j root laws _ _ port ep, refl);
          database = get_string-TextAt j root laws _ _ database ed;
          username = get_string-TextAt j root laws _ _ username eu;
          password = get_string-TextAt j root laws _ _ password ew;
        })

    pub new_server-IsServer :
        (net : Network) (s : Server) → new_server j net root ≡ done s → IsServer net s
    unfolding listen_on
    new_server-IsServer net s e =
        let (host, port, reuse, backlog, max, eh, ep, er, eb, em, el, same) =
          new_server-listens j net root s e in
        let (has, off) = get_bool-HasBool j root laws _ _ reuse er in
        let (address, ea, e₁) = >>=-eq-done (net.make_address host) _ el in
        let (_, _, e₂) = >>=-eq-done (net.open_for address) _ e₁ in
        let (_, es, e₃) = >>=-eq-done (net.set_reuse_address reuse) _ e₂ in
        let (_, bound, listens) = >>=-eq-done (net.bind address (u16 port)) _ e₃ in
        record {
          host = host;
          port = port;
          backlog = backlog;
          max_sessions = max;
          host_lem = get_string-TextAt j root laws _ _ host eh;
          port_lem = get_int-IntAt j root laws _ _ port ep;
          reuse_lem = has;
          backlog_lem = get_int-IntAt j root laws _ _ backlog eb;
          max_lem = get_int-IntAt j root laws _ _ max em;
          address = address;
          address_lem = ea;
          not_reused = ap net.set_reuse_address (sym off) ∙ es;
          bound = bound;
          listens = listens;
          idle = same;
        }

    new_logger-fields :
        (l : Logger)
        → new_logger j root ≡ done l
        → TextAt j root (codes "logging.level") [] (level_to_string l.config_level)
          × TextAt j root (codes "logging.file") [] l.config_file
          × IntAt j root (codes "logging.flush_interval_seconds") 0 l.config_interval_seconds
          × (l.file ≡ none)
    unfolding new_logger
    new_logger-fields l e =
        let (text, et, e₁) = >>=-eq-done (get_string j root (codes "logging.level") []) _ e in
        let (level, el, e₂) = >>=-eq-done (get_level text) _ e₁ in
        let (file, ef, e₃) = >>=-eq-done (get_string j root (codes "logging.file") []) _ e₂ in
        let (interval, ei, e₄) =
          >>=-eq-done (get_int j root (codes "logging.flush_interval_seconds") 0) _ e₃ in
        let named : text ≡ level_to_string level = (get_level-done_iff text level).0 el in
        let made : (record {
          file = none;
          current_date = [];
          config_level = level;
          config_file = file;
          config_interval_seconds = interval;
          pathinfo = record { path = []; name = []; extention = [] };
        })
            ≡ l =
          cc in
        subst
          (λ l.
            TextAt j root (codes "logging.level") [] (level_to_string l.config_level)
            × TextAt j root (codes "logging.file") [] l.config_file
            × IntAt j root (codes "logging.flush_interval_seconds") 0 l.config_interval_seconds
            × (l.file ≡ none))
          made
          (
            get_string-TextAt j root laws _ _ (level_to_string level) (et ∙ ap done named),
            get_string-TextAt j root laws _ _ file ef,
            get_int-IntAt j root laws _ _ interval ei,
            refl,
          )

-- What the tests of the path have found when they pass.
check_path-some :
    (creates : List ℕ → Bool) (parent stem extension : List ℕ) (parts : LogPathInfo)
    → check_path creates parent (stem, extension) ≡ some parts
    → ((extension ≡ codes ".log") ⊎ (extension ≡ codes ".txt"))
      × (parts.name ≡ stem)
      × (parts.extention ≡ extension)
      × (((is_empty parent ≡ true) × (parts.path ≡ []))
          ⊎ ((creates parent ≡ true) × (parts.path ≡ parent ++ slash ∷ [])))
unfolding check_path
check_path-some creates parent stem extension parts e =
    ground (arith, same_text→eq extension (codes ".log"), same_text→eq extension (codes ".txt"))

module _ (j : Json) (root : j.Object) (laws : IsJson j) (creates : List ℕ → Bool) where
  -- A logger that was made, and whose path was then accepted.
  pub get_file_folders-IsLogger :
      (created l : Logger)
      → new_logger j root ≡ done created
      → get_file_folders creates created ≡ (l, true)
      → IsLogger j root creates l
  unfolding get_file_folders
  get_file_folders-IsLogger created l e checked =
      by_parts
        (check_path creates (parent_path created.config_file)
          (split_name (file_name created.config_file)))
        refl checked
    where
      accepted :
          (parts : LogPathInfo)
          → check_path creates
              (parent_path created.config_file)
              (split_name (file_name created.config_file))
            ≡ some parts
          → IsLogger j root creates (record created { pathinfo = parts })
      accepted parts some_parts =
          let (level, file, interval, closed) = new_logger-fields j root laws created e in
          let (stem, extension) = split_name (file_name created.config_file) in
          let (known, same_stem, same_extension, folder) =
            check_path-some creates (parent_path created.config_file) stem extension parts
              some_parts in
          record {
            level = level;
            path = file;
            interval = interval;
            closed = closed;
            extension = rw same_extension known;
            name = rw (same_stem, same_extension) refl;
            folder = folder;
          }

      by_parts :
          (o : Option LogPathInfo)
          → check_path creates
              (parent_path created.config_file)
              (split_name (file_name created.config_file))
            ≡ o
          → keep_path created o ≡ (l, true)
          → IsLogger j root creates l
      by_parts none eo e = cc
      by_parts (some parts) eo e =
          let same : record created { pathinfo = parts } ≡ l = cc in
          subst (IsLogger j root creates) same (accepted parts eo)

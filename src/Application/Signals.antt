-- ===== src/Application/Signals.antt =====
-- What signals do to a running application.
use scalable_tcp_server.Base.{
  ℕ, ◌≡◌, refl, ap, ◌∙◌, Bool, true, false, not, ◌||◌, if◌then◌else◌, List, [], ◌∷◌, Option, done,
  ◌>>=◌,
}
use scalable_tcp_server.Files.{Source}
use scalable_tcp_server.Config.{Json, load_file}
use scalable_tcp_server.Config.Getters.{IsJson}
use scalable_tcp_server.Config.Loading.{or_else, object_in, load_file-object}
use scalable_tcp_server.Server.{stop}
use scalable_tcp_server.Application.{
  Application, Signal, sighup, sigint, sigterm, sigquit, stop_application, reload_config, on_signal,
  signals,
}

abbrev pub stops_it : Signal → Bool
stops_it sighup = false
stops_it sigint = true
stops_it sigterm = true
stops_it sigquit = true

abbrev pub any_stops : List (Signal × Option Source) → Bool
any_stops [] = false
any_stops ((signal, file) ∷ rest) = stops_it signal || any_stops rest

-- The object in the last file with one that SIGHUP finds before a signal that stops, or the first
-- configuration.
abbrev pub last_loaded :
    (j : Json) (parse : List ℕ → Option j.Value)
    → List (Signal × Option Source)
    → j.Object
    → j.Object
last_loaded j parse [] root = root
last_loaded j parse ((sighup, file) ∷ rest) root =
    last_loaded j parse rest (or_else root (object_in j parse file))
last_loaded j parse ((sigint, file) ∷ rest) root = root
last_loaded j parse ((sigterm, file) ∷ rest) root = root
last_loaded j parse ((sigquit, file) ∷ rest) root = root

-- A signal has been waited for, and nothing was stopped.
pub record IsRunning {j : Json} (app : Application j) : Type 0 where
  pub waits : app.waiting ≡ true
  pub guards : app.guarded ≡ true
  pub runs : app.stopped ≡ false

module _ (j : Json) (laws : IsJson j) (parse : List ℕ → Option j.Value) where
  -- Loading returns.
  pub load_file-done :
      (file : Option Source) (root : j.Object)
      → (ok : Bool) × (root' : j.Object) × (load_file j parse file root ≡ done (ok, root'))
  load_file-done file root =
      let (ok, e) = load_file-object j parse laws root file in
      (ok, or_else root (object_in j parse file), e)

  signals_over :
      (rest : List (Signal × Option Source)) (app : Application j)
      → app.waiting ≡ false
      → signals j parse rest app ≡ done app
  unfolding signals
  signals_over [] app over = refl
  signals_over ((signal, file) ∷ rest) app over =
      ap
        (λ waits.
          (if waits then on_signal j parse signal file app else done app) >>= signals j parse rest)
        over
      ∙ signals_over rest app over

  signals_waiting :
      (signal : Signal) (file : Option Source) (rest : List (Signal × Option Source))
      (app : Application j)
      → app.waiting ≡ true
      → signals j parse ((signal, file) ∷ rest) app
        ≡ (on_signal j parse signal file app >>= signals j parse rest)
  unfolding signals
  signals_waiting signal file rest app waits =
      ap (λ w. (if w then on_signal j parse signal file app else done app) >>= signals j parse rest)
        waits

  -- After a signal that stops, those that follow change nothing.
  halts :
      (rest : List (Signal × Option Source)) (app : Application j)
      → signals j parse rest (stop_application j parse (record app { waiting = false }))
        ≡ done (stop_application j parse (record app { waiting = false }))
  unfolding stop_application
  halts rest app =
      signals_over rest
        (record app { waiting = false; server = stop app.server; guarded = false; stopped = true })
        refl

  -- With Boost.JSON as documented, a running application takes any signals without an exception: it is
  -- stopped, its io_context and its acceptor, exactly if one of them is SIGINT, SIGTERM or SIGQUIT, and
  -- waits for the next signal exactly if it is not; SIGHUP changes neither the server nor the parameters
  -- of the database, and the configuration is the object in the last readable file with one that SIGHUP
  -- found before such a signal, or the first one.
  pub signals_lem :
      (es : List (Signal × Option Source)) (app : Application j)
      → IsRunning app
      → (app' : Application j) × (signals j parse es app ≡ done app')
        × (app'.stopped ≡ any_stops es)
        × (app'.waiting ≡ not (any_stops es))
        × (app'.guarded ≡ not (any_stops es))
        × (app'.server ≡ (if any_stops es then stop app.server else app.server))
        × (app'.params ≡ app.params)
        × (app'.config ≡ last_loaded j parse es app.config)
  unfolding on_signal stop_application signals
  signals_lem [] app v = (app, refl, v.runs, v.waits, v.guards, refl, refl, refl)
  signals_lem ((sighup, file) ∷ rest) app v =
      let (ok, e) = load_file-object j parse laws app.config file in
      let root = or_else app.config (object_in j parse file) in
      let (app', er, e₁, e₂, e₃, e₄, e₅, e₆) =
        signals_lem rest (record app { config = root; waiting = true })
          (record { waits = refl; guards = v.guards; runs = v.runs }) in
      (
        app',
        signals_waiting sighup file rest app v.waits
            ∙ ap
                (λ o.
                  reload_config j parse o (record app { waiting = false }) >>= signals j parse rest)
                e
            ∙ er,
        e₁,
        e₂,
        e₃,
        e₄,
        e₅,
        e₆,
      )
  signals_lem ((sigint, file) ∷ rest) app v = (
    stop_application j parse (record app { waiting = false }),
    signals_waiting sigint file rest app v.waits ∙ halts rest app,
    refl,
    refl,
    refl,
    refl,
    refl,
    refl,
  )
  signals_lem ((sigterm, file) ∷ rest) app v = (
    stop_application j parse (record app { waiting = false }),
    signals_waiting sigterm file rest app v.waits ∙ halts rest app,
    refl,
    refl,
    refl,
    refl,
    refl,
    refl,
  )
  signals_lem ((sigquit, file) ∷ rest) app v = (
    stop_application j parse (record app { waiting = false }),
    signals_waiting sigquit file rest app v.waits ∙ halts rest app,
    refl,
    refl,
    refl,
    refl,
    refl,
    refl,
  )

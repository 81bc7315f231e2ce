-- ===== src/Server/Threads/Chain.antt =====
-- src/server/server.cpp: the chain of accepts. `do_accept` makes one accept pending, and its handler
-- calls it again as its last step, unless the acceptor was closed when the handler began.
use scalable_tcp_server.Base.{
  ℕ, ◌+◌, ◌<◌, ◌≡◌, ◌≢◌, Bool, true, false, if◌then◌else◌, List, [], ◌∷◌, Option, none, some,
  Outcome, done, ◌>>=◌,
}
use scalable_tcp_server.Server.{Server, Timeouts, remove_session, stop}
use scalable_tcp_server.Server.Startup.{start_accept}
use scalable_tcp_server.Server.Threads.{
  Shared, quiet, check_accept, start_let_in, insert_opening, Moment, accepts, starts, inserts,
  closes, shuts,
}

-- The server with its threads, and whether an accept is pending.
pub record Listening : Type 0 where
  pub shared : Shared
  pub accepting : Bool

-- `start_accept`, of a server that has accepted nobody.
unfoldable pub listen : Server → Listening
unfolding start_accept
listen s = record { shared = quiet s; accepting = start_accept s }

-- Whether the handler has come to its last step after the test and accepts again: a client that it has
-- let in is to get a session first, which is inserted.
abbrev pub again : (was_open : Bool) → Option (Option (List ℕ)) → Bool
again was_open none = was_open
again was_open (some peer) = false

-- An accept ends only if one is pending.
abbrev pub CanHappen : Moment → Listening → Type 0
CanHappen (accepts a) l = l.accepting ≡ true
CanHappen (starts now) l = l.shared.let_in ≢ none
CanHappen inserts l = l.shared.opening ≢ none
CanHappen (closes i) l = i < l.shared.server.made
CanHappen shuts l = Unit {0}

unfoldable pub happen : (owned : Bool) → Timeouts → Moment → Listening → Outcome Listening
unfolding check_accept start_let_in insert_opening
happen owned t (accepts a) l =
    let w = check_accept a l.shared.server in
    done (record { shared = w; accepting = again l.shared.server.is_open w.let_in })
happen owned t (starts now) l =
    start_let_in owned now t l.shared.let_in l.shared.server >>= λ w. done (record l { shared = w })
happen owned t inserts l = done (record { shared = insert_opening l.shared; accepting = true })
happen owned t (closes i) l =
    done (record l { shared = record l.shared { server = remove_session i l.shared.server } })
happen owned t shuts l =
    done (record l { shared = record l.shared { server = stop l.shared.server } })

-- What comes of an initial state by some moments, the latest first.
pub data Happens (owned : Bool) (t : Timeouts) (initial : Listening)
    : List Moment → Listening → Type 0 where
  here : Happens owned t initial [] initial
  next :
      {ms : List Moment} {l u : Listening}
      → Happens owned t initial ms l
      → (m : Moment) → CanHappen m l
      → happen owned t m l ≡ done u
      → Happens owned t initial (m ∷ ms) u

abbrev pub begins : Moment → ℕ
begins (accepts a) = 1
begins (starts now) = 0
begins inserts = 0
begins (closes i) = 0
begins shuts = 0

-- How many accept handlers begin.
abbrev pub handlers : List Moment → ℕ
handlers [] = 0
handlers (m ∷ ms) = begins m + handlers ms

-- How many clients were let in and have no session yet.
abbrev pub clients : Option (Option (List ℕ)) → ℕ
clients none = 0
clients (some peer) = 1

abbrev pub open_sessions : Option ℕ → ℕ
open_sessions none = 0
open_sessions (some i) = 1

-- The accept that is pending, or the handler that will make one pending.
abbrev pub links : Listening → ℕ
links l =
    (if l.accepting then 1 else 0) + (clients l.shared.let_in + open_sessions l.shared.opening)

-- ===== src/Server/Threads.antt =====
-- src/server/server.cpp on several threads. The accept handler is cut in three: the tests of `is_open`
-- and of the count, the making and starting of the session, and the insertion into `sessions_`, which is
-- under the mutex. Between them the strands of sessions can run, and so can the handler of signals, which
-- stops the server. A session that closes erases itself under the same mutex.
pub mod Accept
pub mod Invariant
pub mod Held
pub mod Chain
pub mod Stopped
use scalable_tcp_server.Base.{
  ℕ, ◌+◌, ◌<◌, ◌≡◌, ◌≢◌, ◌==◌, Bool, true, false, if◌then◌else◌, List, [], ◌∷◌, ◌++◌, Option, none,
  some, Outcome, done, throws, system_error, ◌>>=◌,
}
use scalable_tcp_server.Server.{
  Server, Timeouts, Accepted, error, socket, add_connection, remove_session, stop, open_session,
}

-- The server, the peer of the client that the accept handler has let in and has no session for yet, and
-- the session that it has started and not inserted yet.
pub record Shared : Type 0 where
  pub server : Server
  pub let_in : Option (Option (List ℕ))
  pub opening : Option ℕ

abbrev pub quiet : Server → Shared
quiet s = record { server = s; let_in = none; opening = none }

-- The accept handler up to the answer of `add_connection`. What this reads and writes is the count, which
-- nothing else does, and there is one accept handler at a time: so it is taken together with the test of
-- `is_open` before it.
abbrev pub admit_peer : Option (List ℕ) → Server × Bool → Shared
admit_peer peer (s, true) = record { server = s; let_in = some peer; opening = none }
admit_peer peer (s, false) = quiet s

unfoldable pub check_accept : Accepted → Server → Shared
check_accept error s = quiet s
check_accept (socket peer) s = if s.is_open then admit_peer peer (add_connection s) else quiet s

-- `remote_endpoint`, the construction and the start of a session.
unfoldable pub start_session :
    (owned : Bool) → ℕ → Timeouts → Option (List ℕ) → Server → Outcome Shared
start_session owned now t none s = throws system_error
start_session owned now t (some peer) s = do
  session ← open_session owned now t
  done (record { server = record s { made = s.made + 1 }; let_in = none; opening = some s.made })

-- The accept handler from there to the insertion, for the client that was let in.
unfoldable pub start_let_in :
    (owned : Bool) → ℕ → Timeouts → Option (Option (List ℕ)) → Server → Outcome Shared
unfolding start_session
start_let_in owned now t none s = done (quiet s)
start_let_in owned now t (some peer) s = start_session owned now t peer s

-- The accept handler up to the insertion, when nothing comes between.
unfoldable pub begin_accept : (owned : Bool) → ℕ → Timeouts → Accepted → Server → Outcome Shared
unfolding check_accept start_let_in
begin_accept owned now t a s =
    let w = check_accept a s in start_let_in owned now t w.let_in w.server

-- `sessions_.insert(session)`
abbrev pub insert : Option ℕ → Server → Server
insert none s = s
insert (some i) s = record s { sessions = i ∷ s.sessions }

unfoldable pub insert_opening : Shared → Shared
insert_opening w = quiet (insert w.opening w.server)

pub data Moment : Type 0 where
  accepts : Accepted → Moment
  starts : ℕ → Moment
  inserts : Moment
  closes : ℕ → Moment
  shuts : Moment

-- There is one accept handler at a time, and a session closes once it was started.
abbrev pub IsPossible : Moment → Shared → Type 0
IsPossible (accepts a) w = (w.let_in ≡ none) × (w.opening ≡ none)
IsPossible (starts now) w = (w.let_in ≢ none) × (w.opening ≡ none)
IsPossible inserts w = w.opening ≢ none
IsPossible (closes i) w = i < w.server.made
IsPossible shuts w = Unit {0}

unfoldable pub move : (owned : Bool) → Timeouts → Moment → Shared → Outcome Shared
unfolding check_accept start_let_in insert_opening
move owned t (accepts a) w = done (check_accept a w.server)
move owned t (starts now) w = start_let_in owned now t w.let_in w.server
move owned t inserts w = done (insert_opening w)
move owned t (closes i) w = done (record w { server = remove_session i w.server })
move owned t shuts w = done (record w { server = stop w.server })

-- What comes of an initial state by some moments, the latest first, in whatever order the threads make
-- them.
pub data Moves (owned : Bool) (t : Timeouts) (initial : Shared)
    : List Moment → Shared → Type 0 where
  here : Moves owned t initial [] initial
  next :
      {ms : List Moment} {w u : Shared}
      → Moves owned t initial ms w
      → (m : Moment) → IsPossible m w
      → move owned t m w ≡ done u
      → Moves owned t initial (m ∷ ms) u

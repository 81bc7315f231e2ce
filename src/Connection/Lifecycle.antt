-- ===== src/Connection/Lifecycle.antt =====
-- src/session/session.cpp: stopping, the idle timer, and packets to write. Time is an argument.
use scalable_tcp_server.Base.{
  ℕ, ◌+◌, ◌==◌, Bool, true, false, not, ◌&&◌, ◌||◌, if◌then◌else◌, List, [], ◌∷◌, ◌++◌, Outcome,
  done, throws, bad_weak_ptr, ◌>>◌, is_empty,
}
use scalable_tcp_server.Connection.{
  Session, never, ErrorCode, success, operation_aborted, failed, expires_after,
}

-- `shared_from_this()`: an object that no `shared_ptr` owns throws, and a constructor runs before
-- one does.
unfoldable pub shared_from_this : (owned : Bool) → Outcome (Unit {0})
shared_from_this true = done tt
shared_from_this false = throws bad_weak_ptr

-- The members of a new session, whose idle timer never expires, before `check_idle_timer`.
abbrev pub new_session : (seconds_idle read_seconds seconds_write : ℕ) → Session
new_session seconds_idle read_seconds seconds_write = record {
  is_open = true;
  transmitted = [];
  stopped = false;
  on_close_calls = 0;
  in_sessions = true;
  destroyed = false;
  seconds_idle = seconds_idle;
  idle_timer = never;
  packet_length = 0;
  packet_buffer = [];
  read_seconds = read_seconds;
  read_timer = never;
  queue_buffer = [];
  seconds_write = seconds_write;
  write_timer = never;
  logins = [];
  pending = record {
    lengths = 0;
    bodies = 0;
    writes = [];
    posts = [];
    read_waits = 0;
    write_waits = 0;
    idle_waits = 0;
  };
}

-- `stop`; the callback `on_close_` is the server's `remove_session`, which erases the session.
unfoldable pub stop : Session → Session
stop s = if s.stopped then s else record s {
  stopped = true;
  is_open = false;
  on_close_calls = s.on_close_calls + 1;
  in_sessions = false;
}

-- `check_idle_timer`, on an object that is owned or not.
unfoldable pub check_idle_timer : (owned : Bool) → Session → Outcome Session
unfolding shared_from_this
check_idle_timer owned s = do
  shared_from_this owned
  done (record s { pending = record s.pending { idle_waits = s.pending.idle_waits + 1 } })

-- The handler of the idle timer; it holds a `shared_ptr`, so the session is owned.
unfoldable pub on_idle_timer : ErrorCode → Session → Outcome Session
unfolding check_idle_timer
on_idle_timer operation_aborted s = check_idle_timer true s
on_idle_timer success s = done (stop s)
on_idle_timer failed s = done (stop s)

-- `write_packet` up to the posted handler of `Writer::add_packet`.
unfoldable pub write_packet : ℕ → List ℕ → Session → Session
write_packet now packet s = record s {
  idle_timer = expires_after now s.seconds_idle;
  pending = record s.pending { posts = s.pending.posts ++ packet ∷ [] };
}

-- Every `shared_ptr` to the session is gone once the server has erased it and no idle wait is pending
-- (its handler captures one), nor a login, which holds one too.
unfoldable pub release : Session → Session
release s = record s {
  destroyed =
      s.destroyed || (not s.in_sessions && (s.pending.idle_waits == 0) && is_empty s.logins);
}

-- The constructor of a session. Its last call is `check_idle_timer`.
unfoldable pub construct : (owned : Bool) → ℕ → ℕ → ℕ → Outcome Session
unfolding check_idle_timer
construct owned seconds_idle read_seconds seconds_write =
    check_idle_timer owned (new_session seconds_idle read_seconds seconds_write)

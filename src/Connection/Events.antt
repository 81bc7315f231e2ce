-- ===== src/Connection/Events.antt =====
-- A connection as its strand runs it: asio completes a pending operation, whose handler then runs.
pub mod Invariant
pub mod Order
pub mod Idle
pub mod Drain
pub mod Watched
pub mod Room
pub mod Elapse
pub mod Leak
pub mod Stays
mod Runs
use scalable_tcp_server.Base.{
  ℕ, zero, suc, ◌+◌, ◌-◌, ◌<◌, ◌≡◌, ◌≢◌, Bool, false, List, [], ◌∷◌, ◌++◌, Outcome, done, ◌>>=◌,
}
use scalable_tcp_server.Word.{Host}
use scalable_tcp_server.Auth.{LoginRequest}
use scalable_tcp_server.Connection.{
  Session, Pending, ErrorCode, success, operation_aborted, failed, expires_after,
}
use scalable_tcp_server.Connection.Lifecycle.{write_packet, on_idle_timer, release, construct}
use scalable_tcp_server.Connection.Reader.{
  on_length, on_body, on_read_timer, read_length, new_reader,
}
use scalable_tcp_server.Connection.Writer.{on_post, on_written, on_write_timer, new_writer}

pub data Event : Type 0 where
  length_read : ErrorCode → (word : ℕ) → Event
  body_read : ErrorCode → (body : List ℕ) → Event
  written : ErrorCode → Event
  posted : Event
  read_timer : ErrorCode → Event
  write_timer : ErrorCode → Event
  idle_timer : ErrorCode → Event
  -- somebody calls `write_packet`
  packet_to_write : List ℕ → Event

-- Operations on a socket are aborted by closing it; nothing else in the program cancels them.
abbrev pub MayEnd : ErrorCode → Session → Type 0
MayEnd success s = Unit {0}
MayEnd operation_aborted s = s.is_open ≡ false
MayEnd failed s = Unit {0}

-- An operation completes only if it is pending.
abbrev pub IsEnabled : Event → Session → Type 0
IsEnabled (length_read ec word) s = (0 < s.pending.lengths) × MayEnd ec s
IsEnabled (body_read ec body) s = (0 < s.pending.bodies) × MayEnd ec s
IsEnabled (written ec) s = (s.pending.writes ≢ []) × MayEnd ec s
IsEnabled posted s = s.pending.posts ≢ []
IsEnabled (read_timer ec) s = 0 < s.pending.read_waits
IsEnabled (write_timer ec) s = 0 < s.pending.write_waits
IsEnabled (idle_timer ec) s = 0 < s.pending.idle_waits
IsEnabled (packet_to_write packet) s = s.destroyed ≡ false

-- A write that ends well has put its buffer on the socket.
abbrev pub transmit : ErrorCode → Session → List (List ℕ) → Session
transmit ec s [] = s
transmit success s (packet ∷ rest) = record s {
  transmitted = s.transmitted ++ packet ∷ [];
  pending = record s.pending { writes = rest };
}
transmit operation_aborted s (packet ∷ rest) = record s {
  pending = record s.pending { writes = rest };
}
transmit failed s (packet ∷ rest) = record s { pending = record s.pending { writes = rest } }

-- The handler of `add_packet` for the packet posted first.
abbrev pub run_post : ℕ → Session → List (List ℕ) → Outcome Session
run_post now s [] = done s
run_post now s (packet ∷ rest) =
    on_post now packet (record s { pending = record s.pending { posts = rest } })

module _ (host : Host) (deserialize : List ℕ → Outcome LoginRequest) (now : ℕ) where
  unfoldable pub handle : Event → Session → Outcome Session
  handle (length_read ec word) s =
      on_length host now ec word
        (record s { pending = record s.pending { lengths = s.pending.lengths - 1 } })
  handle (body_read ec body) s =
      on_body host deserialize now ec body
        (record s { pending = record s.pending { bodies = s.pending.bodies - 1 } })
  handle (written ec) s = on_written now ec (transmit ec s s.pending.writes)
  handle posted s = run_post now s s.pending.posts
  handle (read_timer ec) s =
      on_read_timer ec
        (record s { pending = record s.pending { read_waits = s.pending.read_waits - 1 } })
  handle (write_timer ec) s =
      on_write_timer ec
        (record s { pending = record s.pending { write_waits = s.pending.write_waits - 1 } })
  handle (idle_timer ec) s =
      on_idle_timer ec
        (record s { pending = record s.pending { idle_waits = s.pending.idle_waits - 1 } })
  handle (packet_to_write packet) s = done (write_packet now packet s)

  -- One event, and the end of the handler, where the pointers that it held are released.
  unfoldable pub step : Event → Session → Outcome Session
  step event s = handle event s >>= λ s'. done (release s')

-- `Session::read_packet`
unfoldable pub read_packet : ℕ → Session → Session
unfolding read_length
read_packet now s = read_length now (record s { idle_timer = expires_after now s.seconds_idle })

-- `Session::start`, on objects that a `shared_ptr` owns in their constructors or not.
unfoldable pub start : (owned : Bool) → ℕ → Session → Outcome Session
unfolding new_reader new_writer read_packet
start owned now s = do
  with_reader ← new_reader owned s
  with_writer ← new_writer owned with_reader
  done (read_packet now with_writer)

-- The packet that somebody asks to write.
abbrev pub requested : Event → List (List ℕ)
requested (packet_to_write packet) = packet ∷ []
requested _ = []

-- The states that a connection reaches, in whatever order its operations complete, with the packets
-- that it was asked to write.
pub data Reach (host : Host) (deserialize : List ℕ → Outcome LoginRequest) (initial : Session)
    : List (List ℕ) → Session → Type 0 where
  here : Reach host deserialize initial [] initial
  next :
      {packets : List (List ℕ)} {s t : Session}
      → Reach host deserialize initial packets s
      → (now : ℕ) (event : Event) → IsEnabled event s
      → step host deserialize now event s ≡ done t
      → Reach host deserialize initial (packets ++ requested event) t

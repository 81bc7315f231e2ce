-- ===== src/Connection.antt =====
-- src/session, src/network: one client connection. The state is that of a `Session` with its
-- `Reader` and `Writer`, and the operations that asio has pending for them. All handlers of a
-- connection run on one strand, one at a time.
pub mod Lifecycle
pub mod Reader
pub mod Writer
pub mod Events
pub mod Stream
pub mod Peer
pub mod Samples
mod Runs
use scalable_tcp_server.Base.{ℕ, ◌+◌, Bool, true, false, List, []}
use scalable_tcp_server.Auth.{LoginRequest}

-- When a timer expires: `time_point::max()`, or a time in seconds.
pub data Expiry : Type 0 where
  never : Expiry
  at : ℕ → Expiry

abbrev pub expires_after : ℕ → ℕ → Expiry
expires_after now seconds = Expiry.at (now + seconds)

-- The error code that a completion handler gets.
pub data ErrorCode : Type 0 where
  success operation_aborted failed : ErrorCode

-- What has been started and not completed: reads of a length, reads of a body, the buffers under
-- `async_write`, the packets of posted handlers, and waits on the three timers.
pub record Pending : Type 0 where
  pub lengths : ℕ
  pub bodies : ℕ
  pub writes : List (List ℕ)
  pub posts : List (List ℕ)
  pub read_waits : ℕ
  pub write_waits : ℕ
  pub idle_waits : ℕ

pub record Session : Type 0 where
  -- `socket_`: open, and the buffers that it has transmitted
  pub is_open : Bool
  pub transmitted : List (List ℕ)
  -- `stopped_`, and how often `on_close_` was called
  pub stopped : Bool
  pub on_close_calls : ℕ
  -- held by the server's `sessions_`
  pub in_sessions : Bool
  pub destroyed : Bool
  pub seconds_idle : ℕ
  pub idle_timer : Expiry
  -- Reader
  pub packet_length : ℕ
  pub packet_buffer : List ℕ
  pub read_seconds : ℕ
  pub read_timer : Expiry
  -- Writer
  pub queue_buffer : List (List ℕ)
  pub seconds_write : ℕ
  pub write_timer : Expiry
  -- logins that the authentication handler has spawned
  pub logins : List LoginRequest
  pub pending : Pending

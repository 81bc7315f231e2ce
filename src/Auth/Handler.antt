-- ===== src/Auth/Handler.antt =====
-- `Router::route` and `AuthHandler::handle`. What comes back is the login that is spawned, if any.
pub mod Unreached
use scalable_tcp_server.Base.{ℕ, List, Option, none, some, Outcome, done, ◌>>=◌, if◌then◌else◌}
use scalable_tcp_server.Packet.{Packet, PacketType, SubHeaderType, same_type}
use scalable_tcp_server.Packet.Lookup.{sub_header_get_uint8, read_span}
use scalable_tcp_server.Auth.{AuthAction, LoginRequest, action_from_byte, same_action}

-- `deserialize` is the archive of Boost.Serialization that `deserialize_login_request` reads from.
module _ (deserialize : List ℕ → Outcome LoginRequest) where
  -- The bytes from `payload()` on, `payload_size()` of them.
  unfoldable pub deserialize_login_request : Packet → Outcome LoginRequest
  deserialize_login_request p =
      read_span p.buffer (record { offset = p.offset_payload; size = p.payload_size })
      >>= deserialize

  unfoldable pub handle_action : Packet → AuthAction → Outcome (Option LoginRequest)
  unfolding deserialize_login_request
  handle_action p action =
      if same_action action AuthAction.unknown
      then done none
      else if same_action action AuthAction.login
      then (deserialize_login_request p >>= λ request. done (some request))
      else done none

  unfoldable pub handle_value : Packet → Option ℕ → Outcome (Option LoginRequest)
  unfolding handle_action
  handle_value p none = done none
  handle_value p (some value) = handle_action p (action_from_byte value)

  unfoldable pub handle : Packet → Outcome (Option LoginRequest)
  unfolding handle_value
  handle p = sub_header_get_uint8 p SubHeaderType.action >>= handle_value p

  unfoldable pub route : Packet → Outcome (Option LoginRequest)
  unfolding handle
  route p = if same_type p.packet_type PacketType.auth then handle p else done none

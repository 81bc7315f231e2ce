-- ===== src/Connection/Reader.antt =====
-- src/network/reader.cpp. A handler of the reader looks at the session's socket through a reference,
-- which dangles once the session is destroyed.
pub mod Frames
pub mod Buffer
pub mod Mismatch
use scalable_tcp_server.Base.{
  ℕ, ◌+◌, ◌-◌, Bool, true, not, ltb, if◌then◌else◌, List, [], ◌∷◌, ◌++◌, length, take, replicate,
  Option, none, some, Outcome, done, fault, ◌>>=◌, ◌>>◌,
}
use scalable_tcp_server.Word.{Host, u32, store32, ntohl, htonl}
use scalable_tcp_server.Packet.{packet_length, max_packet_size}
use scalable_tcp_server.Packet.Create.{write_bytes}
use scalable_tcp_server.Packet.Parse.{parse}
use scalable_tcp_server.Auth.{LoginRequest}
use scalable_tcp_server.Auth.Handler.{route}
use scalable_tcp_server.Connection.{
  Session, never, ErrorCode, success, operation_aborted, failed, expires_after,
}
use scalable_tcp_server.Connection.Lifecycle.{stop, shared_from_this}

-- `std::vector::resize`: new elements are 0.
abbrev pub resize : ℕ → List ℕ → List ℕ
resize n xs = take n xs ++ replicate (n - length xs) 0

unfoldable pub read_length : ℕ → Session → Session
read_length now s = record s {
  read_timer = expires_after now s.read_seconds;
  pending = record s.pending { lengths = s.pending.lengths + 1 };
}

unfoldable pub read_body : Host → ℕ → Session → Session
read_body host now s = record s {
  read_timer = expires_after now s.read_seconds;
  packet_buffer =
      write_bytes (resize (u32 (s.packet_length + packet_length)) s.packet_buffer) 0
        (store32 host (htonl host s.packet_length));
  pending = record s.pending { bodies = s.pending.bodies + 1 };
}

-- `word` is `packet_length_` as the network's four bytes fill it.
unfoldable pub length_was_read : Host → ℕ → ErrorCode → ℕ → Session → Session
unfolding read_body stop
length_was_read host now success word s =
    let s' = record s { packet_length = ntohl host word } in
    if ltb max_packet_size s'.packet_length then stop s' else read_body host now s'
length_was_read host now operation_aborted word s = s
length_was_read host now failed word s = stop s

-- The handler of the read of a length.
unfoldable pub on_length : Host → ℕ → ErrorCode → ℕ → Session → Outcome Session
unfolding length_was_read
on_length host now ec word s =
    if s.destroyed
    then fault
    else if not s.is_open
    then done s
    else done (length_was_read host now ec word s)

abbrev pub spawned : Option LoginRequest → Session → Session
spawned none s = s
spawned (some request) s = record s { logins = s.logins ++ request ∷ [] }

-- `Session::on_packet`: the login that the packet spawns is kept.
unfoldable pub on_packet :
    Host → (List ℕ → Outcome LoginRequest) → List ℕ → Session → Outcome Session
on_packet host deserialize packet s = do
  p ← parse host packet
  login ← route deserialize p
  done (spawned login s)

-- The bytes that the body read leaves behind the length in `packet_buffer_`.
abbrev pub filled : List ℕ → Session → List ℕ
filled body s = take packet_length s.packet_buffer ++ body

unfoldable pub body_was_read :
    Host → (List ℕ → Outcome LoginRequest) → ℕ → ErrorCode → List ℕ → Session → Outcome Session
unfolding read_length on_packet stop
body_was_read host deserialize now success body s = do
  s' ← on_packet host deserialize (filled body s) s
  done (read_length now (record s' { packet_buffer = [] }))
body_was_read host deserialize now operation_aborted body s = done s
body_was_read host deserialize now failed body s = done (stop s)

-- The handler of the read of a body. The session's weak pointer locks as long as it lives.
unfoldable pub on_body :
    Host → (List ℕ → Outcome LoginRequest) → ℕ → ErrorCode → List ℕ → Session → Outcome Session
on_body host deserialize now ec body s =
    if s.destroyed
    then fault
    else if not s.is_open
    then done s
    else body_was_read host deserialize now ec body s

unfoldable pub check_read_deadline : (owned : Bool) → Session → Outcome Session
unfolding shared_from_this
check_read_deadline owned s = do
  shared_from_this owned
  done (record s { pending = record s.pending { read_waits = s.pending.read_waits + 1 } })

-- The constructor, whose last call is `check_read_deadline`; `read_seconds` is set already.
unfoldable pub new_reader : (owned : Bool) → Session → Outcome Session
unfolding check_read_deadline
new_reader owned s = check_read_deadline owned (record s { read_timer = never })

-- The handler of the read timer; `stop` needs the session to be alive.
unfoldable pub on_read_timer : ErrorCode → Session → Outcome Session
unfolding check_read_deadline stop
on_read_timer operation_aborted s = check_read_deadline true s
on_read_timer success s = done (if s.destroyed then s else stop s)
on_read_timer failed s = done (if s.destroyed then s else stop s)

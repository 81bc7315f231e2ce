-- ===== src/Connection/Writer.antt =====
-- src/network/writer.cpp.
use scalable_tcp_server.Base.{
  ℕ, ◌+◌, Bool, true, not, if◌then◌else◌, is_empty, List, [], ◌∷◌, ◌++◌, Outcome, done, fault,
  ◌>>=◌, ◌>>◌,
}
use scalable_tcp_server.Connection.{
  Session, never, ErrorCode, success, operation_aborted, failed, expires_after,
}
use scalable_tcp_server.Connection.Lifecycle.{stop, shared_from_this}

-- `front()` and `pop_front()` of an empty deque are undefined behaviour.
abbrev front : List (List ℕ) → Outcome (List ℕ)
front [] = fault
front (packet ∷ rest) = done packet

abbrev pop_front : List (List ℕ) → Outcome (List (List ℕ))
pop_front [] = fault
pop_front (packet ∷ rest) = done rest

-- The write reads the socket through a reference into the session.
unfoldable pub write : ℕ → Session → Outcome Session
write now s =
    if s.destroyed
    then fault
    else front s.queue_buffer >>= λ packet. done (record s {
      write_timer = expires_after now s.seconds_write;
      pending = record s.pending { writes = s.pending.writes ++ packet ∷ [] };
    })

-- The handler that `add_packet` posts.
unfoldable pub on_post : ℕ → List ℕ → Session → Outcome Session
unfolding write
on_post now packet s =
    let s' = record s { queue_buffer = s.queue_buffer ++ packet ∷ [] } in
    if is_empty s.queue_buffer then write now s' else done s'

unfoldable pub was_written : ℕ → ErrorCode → Session → Outcome Session
unfolding write stop
was_written now success s = pop_front s.queue_buffer >>= λ rest.
    let s' = record s { queue_buffer = rest } in
    if not (is_empty rest) then write now s' else done (record s' { write_timer = never })
was_written now operation_aborted s = done s
was_written now failed s = done (stop s)

-- The handler of a write.
unfoldable pub on_written : ℕ → ErrorCode → Session → Outcome Session
unfolding was_written
on_written now ec s =
    if s.destroyed then fault else if not s.is_open then done s else was_written now ec s

unfoldable pub check_write_deadline : (owned : Bool) → Session → Outcome Session
unfolding shared_from_this
check_write_deadline owned s = do
  shared_from_this owned
  done (record s { pending = record s.pending { write_waits = s.pending.write_waits + 1 } })

-- The constructor, whose last call is `check_write_deadline`; `seconds_write` is set already.
unfoldable pub new_writer : (owned : Bool) → Session → Outcome Session
unfolding check_write_deadline
new_writer owned s = check_write_deadline owned (record s { write_timer = never })

-- The handler of the write timer; `stop` needs the session to be alive.
unfoldable pub on_write_timer : ErrorCode → Session → Outcome Session
unfolding check_write_deadline stop
on_write_timer operation_aborted s = check_write_deadline true s
on_write_timer success s = done (if s.destroyed then s else stop s)
on_write_timer failed s = done (if s.destroyed then s else stop s)

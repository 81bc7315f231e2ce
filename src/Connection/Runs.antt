-- ===== src/Connection/Runs.antt =====
-- A connection that writes one packet, and the theorems on connections at concrete inputs.
use scalable_tcp_server.Base.{◌+◌, ◌≤◌, ◌≡◌, refl, true, [], ◌∷◌, length, done, fault, arith}
use scalable_tcp_server.Word.{little, store32, ntohl}
use scalable_tcp_server.Packet.{max_packet_size, packet_length}
use scalable_tcp_server.Connection.{Session, Expiry, success, operation_aborted}
use scalable_tcp_server.Connection.Samples.{
  archive, started, construct-built, start-started, packet,
}
use scalable_tcp_server.Connection.Lifecycle.{write_packet, release}
use scalable_tcp_server.Connection.Reader.{on_length}
use scalable_tcp_server.Connection.Writer.{on_post, on_written}
use scalable_tcp_server.Connection.Events.{
  length_read, idle_timer, written, posted, packet_to_write, handle, step, Reach, here, next,
  IsEnabled,
}
use scalable_tcp_server.Connection.Events.Invariant.{Inv, Reach-Inv}
use scalable_tcp_server.Connection.Events.Order.{outbox, Reach-outbox}
use scalable_tcp_server.Connection.Events.Room.{Reach-HasRoom}
use scalable_tcp_server.Connection.Events.Watched.{IsWatched, Reach-IsWatched}
use scalable_tcp_server.Connection.Events.Drain.{Reach-drains}
use scalable_tcp_server.Connection.Events.Idle.{idle_timer_dangles}

abbrev asked : Session
asked = record started {
  idle_timer = Expiry.at 65;
  pending = record started.pending { posts = packet ∷ [] };
}

abbrev writing : Session
writing = record asked {
  queue_buffer = packet ∷ [];
  write_timer = Expiry.at 16;
  pending = record asked.pending { posts = []; writes = packet ∷ [] };
}

abbrev sent : Session
sent = record writing {
  transmitted = packet ∷ [];
  queue_buffer = [];
  write_timer = Expiry.never;
  pending = record writing.pending { writes = [] };
}

step-asked : step little archive 5 (packet_to_write packet) started ≡ done asked
unfolding step handle write_packet release
step-asked = refl

step-writing : step little archive 6 posted asked ≡ done writing
unfolding step handle on_post release
step-writing = refl

step-sent : step little archive 7 (written success) writing ≡ done sent
unfolding step handle on_written release
step-sent = refl

reaches_writing : Reach little archive started (packet ∷ []) writing
reaches_writing =
    next (next here 5 (packet_to_write packet) refl step-asked) 6 posted (λ e. cc) step-writing

reaches_sent : Reach little archive started (packet ∷ []) sent
reaches_sent =
    next
      (next (next here 5 (packet_to_write packet) refl step-asked) 6 posted (λ e. cc) step-writing)
      7 (written success) ((λ e. cc), tt) step-sent

Reach-Inv_example : Inv sent
Reach-Inv_example = Reach-Inv 0 60 30 10 construct-built start-started reaches_sent

Reach-IsWatched_example : IsWatched sent
Reach-IsWatched_example = Reach-IsWatched 0 60 30 10 construct-built start-started reaches_sent refl

Reach-outbox_example : outbox sent ≡ packet ∷ []
Reach-outbox_example = Reach-outbox 0 60 30 10 construct-built start-started reaches_sent refl

idle_timer_dangles_example :
    (t : Session) × (step little archive 60 (idle_timer success) started ≡ done t)
    × IsEnabled (length_read operation_aborted 0) t
    × (step little archive 61 (length_read operation_aborted 0) t ≡ fault)
idle_timer_dangles_example =
    idle_timer_dangles little archive 60 61 0 started refl refl refl refl (omega arith)

Reach-drains_example :
    (t : Session) × Reach little archive writing [] t
    × (t.is_open ≡ true)
    × (t.transmitted ≡ packet ∷ [])
    × (t.queue_buffer ≡ [])
    × (t.pending.posts ≡ [])
Reach-drains_example = Reach-drains 0 60 30 10 construct-built start-started reaches_writing refl

-- The length of a body of two bytes has come.
abbrev reading : Session
reading = record started {
  packet_length = 2;
  packet_buffer = 0 ∷ 0 ∷ 0 ∷ 2 ∷ 0 ∷ 0 ∷ [];
  read_timer = Expiry.at 31;
  pending = record started.pending { lengths = 0; bodies = 1 };
}

step-reading : step little archive 1 (length_read success 33554432) started ≡ done reading
unfolding step handle on_length ntohl store32 release
step-reading = refl

Reach-HasRoom_example : (length reading.packet_buffer ≡ 2 + packet_length) × (2 ≤ max_packet_size)
Reach-HasRoom_example =
    Reach-HasRoom 0 60 30 10 construct-built start-started
      (next here 1 (length_read success 33554432) (omega arith, tt) step-reading) (omega arith)

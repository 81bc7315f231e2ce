-- ===== src/Connection/Samples.antt =====
-- A session that was just started, and a packet, to try the theorems on connections.
use scalable_tcp_server.Base.{◌≡◌, refl, true, false, ℕ, List, [], ◌∷◌, Outcome, done, arith}
use scalable_tcp_server.Word.{little, big}
use scalable_tcp_server.Packet.{PacketVersion, PacketType, PacketFlags}
use scalable_tcp_server.Packet.Create.Layout.{created, create-eq_done}
use scalable_tcp_server.Packet.Create.{create}
use scalable_tcp_server.Auth.{LoginRequest}
use scalable_tcp_server.Connection.{Session, Expiry, failed}
use scalable_tcp_server.Connection.Lifecycle.{new_session, construct, stop, release}
use scalable_tcp_server.Connection.Reader.{on_length}
use scalable_tcp_server.Connection.Events.{length_read, handle, step, start}

-- An archive that holds a user id alone.
abbrev pub archive : List ℕ → Outcome LoginRequest
archive bytes = done (record { user_id = bytes; password = [] })

abbrev pub built : Session
built = record (new_session 60 30 10) {
  pending = record (new_session 60 30 10).pending { idle_waits = 1 };
}

abbrev pub started : Session
started = record built {
  idle_timer = Expiry.at 60;
  read_timer = Expiry.at 30;
  pending = record built.pending { lengths = 1; read_waits = 1; write_waits = 1 };
}

pub construct-built : construct true 60 30 10 ≡ done built
unfolding construct
construct-built = refl

pub start-started : start true 0 built ≡ done started
unfolding start
start-started = refl

abbrev pub packet : List ℕ
packet = 7 ∷ 8 ∷ []

pub created-packet :
    create big PacketVersion.v1 PacketType.text PacketFlags.none 1 [] packet
    ≡ done (created PacketType.text 1 [] packet)
created-packet =
    create-eq_done big PacketType.text PacketFlags.none 1 [] packet (λ e. cc) (omega arith)
      (omega arith) (omega arith)

-- The client is gone: the session is stopped.
abbrev pub closed : Session
closed = record started {
  stopped = true;
  is_open = false;
  on_close_calls = 1;
  in_sessions = false;
  pending = record started.pending { lengths = 0 };
}

pub step-closed : step little archive 10 (length_read failed 0) started ≡ done closed
unfolding step handle on_length stop release
step-closed = refl

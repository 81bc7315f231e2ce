-- ===== src/Connection/Stream.antt =====
-- The bytes that a client sends, as the reads of a connection take them: `async_read` of a length takes
-- four bytes, that of a body as many as were announced, and each completes once so many have come.
pub mod Frame
pub mod Rounds
pub mod Judged
pub mod Ends
pub mod Verdict
pub mod Created
mod Runs
use scalable_tcp_server.Base.{
  ℕ, zero, suc, ◌≤◌, ltb, leb, not, if◌then◌else◌, List, [], ◌∷◌, length, take, drop, Option, none,
  some, Outcome, done, stuck, ◌>>=◌,
}
use scalable_tcp_server.Word.{Host, load32}
use scalable_tcp_server.Auth.{LoginRequest}
use scalable_tcp_server.Connection.{Session, success}
use scalable_tcp_server.Connection.Events.{length_read, body_read, step}

-- A session, and the bytes that have come and that it has not read.
abbrev pub Served : Type 0
Served = Session × List ℕ

abbrev pub leaving : List ℕ → Session → Outcome Served
leaving rest s = done (s, rest)

-- What follows a read, or the end of the reading.
abbrev pub go_on :
    (List ℕ → Session → Outcome Served) → Served → Option (Outcome Served) → Outcome Served
go_on again served none = done served
go_on again served (some r) = r >>= λ (t, rest). again rest t

module _ (host : Host) (deserialize : List ℕ → Outcome LoginRequest) (now : ℕ) where
  unfoldable pub read_four : List ℕ → Session → Option (Outcome Served)
  read_four (a ∷ b ∷ c ∷ d ∷ rest) s =
      some
        (step host deserialize now (length_read success (load32 host a b c d)) s >>= leaving rest)
  read_four _ s = none

  unfoldable pub read_announced : List ℕ → Session → Option (Outcome Served)
  read_announced unread s =
      if leb s.packet_length (length unread)
      then some (
          step host deserialize now (body_read success (take s.packet_length unread)) s
          >>= leaving (drop s.packet_length unread))
      else none

  -- The read that is pending, if enough bytes have come for it.
  unfoldable pub read_pending : List ℕ → Session → Option (Outcome Served)
  unfolding read_four read_announced
  read_pending unread s =
      if not s.is_open
      then none
      else if ltb 0 s.pending.lengths
      then read_four unread s
      else if ltb 0 s.pending.bodies
      then read_announced unread s
      else none

  -- Reads, until too few bytes are left; on fuel.
  unfoldable pub serve : ℕ → List ℕ → Session → Outcome Served
  unfolding read_pending
  serve zero unread s = stuck
  serve (suc fuel) unread s = go_on (serve fuel) (s, unread) (read_pending unread s)

-- ===== src/Server/Whole/Callback.antt =====
-- What the callback `on_close_` of a session does to the server.
use scalable_tcp_server.Base.{ℕ, ◌≡◌, ◌≢◌, true, false, ltb, Bool-cases, inl, inr, arith}
use scalable_tcp_server.Connection.{Session}
use scalable_tcp_server.Connection.Events.Invariant as Session
use scalable_tcp_server.Server.{Server, remove_session}
use scalable_tcp_server.Server.Capacity as Capacity
use scalable_tcp_server.Server.Threads.Invariant.{
  contains, contains-erase-ne, contains-erase, contains-erase-false, Distinct, erase-Distinct,
}
use scalable_tcp_server.Server.Whole.{called_back}

-- What the callback of session `i` does.
module _ (i : ℕ) (before after : Session) (server : Server) (b : Session.Inv before)
    (a : Session.Inv after) (stays : before.stopped ≡ true → after.stopped ≡ true) where
  pub back_held :
      Distinct server.sessions
      → contains i server.sessions ≡ before.in_sessions
      → contains i (called_back i before after server).sessions ≡ after.in_sessions
  unfolding remove_session
  back_held d h = ground (arith, contains-erase i server.sessions d)

  pub back_other :
      (k : ℕ)
      → k ≢ i
      → contains k (called_back i before after server).sessions ≡ contains k server.sessions
  unfolding remove_session
  back_other k other = ground (arith, contains-erase-ne k i server.sessions other)

  pub back-Distinct :
      Distinct server.sessions → Distinct (called_back i before after server).sessions
  unfolding remove_session
  back-Distinct d = elim (Bool-cases (ltb before.on_close_calls after.on_close_calls)) [
    | inl called ↦ rw called (erase-Distinct i server.sessions d)
    | inr quiet ↦ rw quiet d
  ]

  pub back_unmade :
      (k : ℕ)
      → contains k server.sessions ≡ false
      → contains k (called_back i before after server).sessions ≡ false
  unfolding remove_session
  back_unmade k h = ground (arith, contains-erase-false k i server.sessions h)

  pub back_made : (called_back i before after server).made ≡ server.made
  unfolding remove_session
  back_made = ground arith

  pub back_limit : (called_back i before after server).max_sessions ≡ server.max_sessions
  unfolding remove_session
  back_limit = ground arith

  pub back_counted : Capacity.Inv server → Capacity.Inv (called_back i before after server)
  unfolding remove_session
  back_counted c = elim (Bool-cases (ltb before.on_close_calls after.on_close_calls)) [
    | inl called ↦ rw called (record {
      held = omega (arith, c.held, Capacity.length-erase-le i server.sessions);
      capped = c.capped;
    })
    | inr quiet ↦ rw quiet c
  ]

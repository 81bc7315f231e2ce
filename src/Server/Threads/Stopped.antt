-- ===== src/Server/Threads/Stopped.antt =====
-- How many accepts are pending, and what follows once the server was stopped.
use scalable_tcp_server.Base.{
  ℕ, ◌+◌, ◌≤◌, ◌≡◌, refl, ◌∙◌, Bool, true, false, List, Option, none, some, done, >>=-eq-done,
  arith,
}
use scalable_tcp_server.Server.{
  Server, Timeouts, Accepted, error, socket, add_connection, remove_session, stop, open_session,
}
use scalable_tcp_server.Server.Startup.{idle_server, start_accept}
use scalable_tcp_server.Server.Threads.{
  Shared, check_accept, start_session, start_let_in, insert_opening, Moment, accepts, starts,
  inserts, closes, shuts, move, Moves, IsPossible,
}
use scalable_tcp_server.Server.Threads.Invariant.{idle}
use scalable_tcp_server.Server.Threads.Chain.{
  Listening, listen, CanHappen, happen, Happens, begins, here, next, handlers, clients,
  open_sessions, links,
}

-- At most one accept is pending or handled, and exactly one while the acceptor is open.
record Inv (l : Listening) : Type 0 where
  single : links l ≤ 1
  linked : l.shared.server.is_open ≡ true → links l ≡ 1

module _ (owned : Bool) (t : Timeouts) where
  start_session-is_open :
      (now : ℕ) (peer : Option (List ℕ)) (s : Server) (u : Shared)
      → start_session owned now t peer s ≡ done u
      → u.server.is_open ≡ s.is_open
  unfolding start_session
  start_session-is_open now none s u e = cc
  start_session-is_open now (some peer) s u e =
      let (session, _, e') = >>=-eq-done (open_session owned now t) _ e in ground arith

  check_accept-is_open :
      (a : Accepted) (s : Server)
      → ((check_accept a s).server.is_open ≡ s.is_open)
        × ((check_accept a s).server.made ≡ s.made)
        × ((check_accept a s).opening ≡ none)
        × (s.is_open ≡ false → (check_accept a s).let_in ≡ none)
  unfolding check_accept add_connection
  check_accept-is_open error s = (refl, refl, refl, λ shut. refl)
  check_accept-is_open (socket peer) s = ground arith

  start_session-links :
      (now : ℕ) (peer : Option (List ℕ)) (s : Server) (u : Shared)
      → start_session owned now t peer s ≡ done u
      → (u.let_in ≡ none) × (u.server.made ≡ s.made + 1) × (u.opening ≡ some s.made)
  unfolding start_session
  start_session-links now none s u e = cc
  start_session-links now (some peer) s u e =
      let (session, _, e') = >>=-eq-done (open_session owned now t) _ e in ground arith

  -- A client that was let in gets a session.
  start_let_in-links :
      (now : ℕ) (o : Option (Option (List ℕ))) (s : Server) (u : Shared)
      → start_let_in owned now t o s ≡ done u
      → (u.server.is_open ≡ s.is_open)
        × (u.let_in ≡ none)
        × (u.server.made ≡ s.made + clients o)
        × (open_sessions u.opening ≡ clients o)
  unfolding start_let_in
  start_let_in-links now none s u e = ground arith
  start_let_in-links now (some peer) s u e =
      ground (arith, start_session-is_open now peer s u e, start_session-links now peer s u e)

  -- What one moment does to the chain.
  happen-links :
      (m : Moment) (l u : Listening)
      → Inv l
      → CanHappen m l
      → happen owned t m l ≡ done u
      → Inv u
        × (l.shared.server.is_open ≡ false
            → (u.shared.server.is_open ≡ false)
              × (u.shared.server.made + clients u.shared.let_in
                  ≡ l.shared.server.made + clients l.shared.let_in)
              × (begins m + links u ≤ links l))
  unfolding happen insert_opening remove_session stop
  happen-links (accepts a) l u v p e =
      let (same, made, opens, shut) = check_accept-is_open a l.shared.server in
      ground (arith, v, same, made, opens, shut)
  happen-links (starts now) l u v p e =
      let (w, ew, e') =
        >>=-eq-done (start_let_in owned now t l.shared.let_in l.shared.server) _ e in
      let (same, out, made, opens) = start_let_in-links now l.shared.let_in l.shared.server w ew in
      ground (arith, v)
  happen-links inserts l u v p e = ground (arith, v)
  happen-links (closes i) l u v p e = ground (arith, v)
  happen-links shuts l u v p e = ground (arith, v)

  happens :
      {l u : Listening} {ms : List Moment}
      → Inv l
      → Happens owned t l ms u
      → Inv u
        × (l.shared.server.is_open ≡ false
            → (u.shared.server.is_open ≡ false)
              × (u.shared.server.made + clients u.shared.let_in
                  ≡ l.shared.server.made + clients l.shared.let_in)
              × (handlers ms + links u ≤ links l))
  happens v here = (v, λ shut. (shut, refl, omega arith))
  happens v (next {ms} {l} {u} r m p e) =
      let (v', before) = happens v r in
      let (v'', then_) = happen-links m l u v' p e in
      (
        v'',
        λ shut.
            let (shut', made', bound') = before shut in
            let (shut'', made'', bound'') = then_ shut' in (shut'', made'' ∙ made', omega arith),
      )

  -- The chain of accepts leaves out moments that the threads alone could make.
  move_of :
      (m : Moment) (l u : Listening)
      → Inv l
      → CanHappen m l
      → happen owned t m l ≡ done u
      → IsPossible m l.shared × (move owned t m l.shared ≡ done u.shared)
  unfolding happen move
  move_of (accepts a) l u v p e =
      ((ground (arith, v.single), ground (arith, v.single)), ground arith)
  move_of (starts now) l u v p e =
      let (w, ew, e') =
        >>=-eq-done (start_let_in owned now t l.shared.let_in l.shared.server) _ e in
      ((p, ground (arith, v.single)), ground arith)
  move_of inserts l u v p e = (p, ground arith)
  move_of (closes i) l u v p e = (p, ground arith)
  move_of shuts l u v p e = (tt, ground arith)

  Happens-Moves :
      {l u : Listening} {ms : List Moment}
      → Inv l
      → Happens owned t l ms u
      → Moves owned t l.shared ms u.shared
  Happens-Moves v here = Moves.here
  Happens-Moves v (next {ms} {l} {u} r m p e) =
      let (possible, moved) = move_of m l u (happens v r).0 p e in
      Moves.next (Happens-Moves v r) m possible moved

  listen-Inv : (n : ℕ) → Inv (listen (idle_server n))
  unfolding listen start_accept
  listen-Inv n = record { single = omega arith; linked = λ e. refl }

  -- However the threads interleave, from a server that has accepted nobody and starts to accept,
  -- also between the test of `is_open` with the count and the making of the session, and between
  -- this and its insertion: at most one accept is pending or handled, and exactly one while the
  -- acceptor is open; what happens is a run of the threads as `Moves` has them; and once the server
  -- is stopped, at most one accept handler begins, the acceptor stays closed, no client is let in,
  -- and no session is made but that of a client who was let in before, of whom there is at most
  -- one.
  pub stopped_accepts :
      (n : ℕ) {before : List Moment} {l : Listening}
      → Happens owned t (listen (idle_server n)) before l
      → (links l ≤ 1)
        × (l.shared.server.is_open ≡ true → links l ≡ 1)
        × Moves owned t (idle n) before l.shared
        × ((after : List Moment) (u : Listening)
            → Happens owned t
                (record l { shared = record l.shared { server = stop l.shared.server } })
                after
                u
            → (handlers after ≤ 1)
              × (u.shared.server.is_open ≡ false)
              × (u.shared.server.made + clients u.shared.let_in
                  ≡ l.shared.server.made + clients l.shared.let_in))
  unfolding stop
  stopped_accepts n {l} r =
      let v = (happens (listen-Inv n) r).0 in
      (
        v.single,
        v.linked,
        unfold listen in Happens-Moves (listen-Inv n) r,
        λ after u r'.
            let (_, later) = happens (record { single = v.single; linked = λ e. cc }) r' in
            let (shut, made, bound) = later refl in (omega (arith, v.single), shut, made),
      )

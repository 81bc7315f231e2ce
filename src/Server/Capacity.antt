-- ===== src/Server/Capacity.antt =====
-- How many sessions the server holds, and whom it admits.
use scalable_tcp_server.Base.{
  ℕ, ◌+◌, ◌≤◌, ◌<◌, ◌≡◌, refl, Bool, true, false, List, [], ◌∷◌, length, Option, none, some, done,
  throws, bad_weak_ptr, >>=-eq-done, arith, inl, inr, ◌⊎◌, ◌∙◌, Bool-cases,
}
use scalable_tcp_server.Connection.Lifecycle.{construct}
use scalable_tcp_server.Server.{
  Server, Timeouts, error, socket, Event, accepted, closed, stops, add_connection, erase,
  remove_session, stop, open_session, admit, after_add, on_accept, step, run,
}

-- Every session in the set was admitted, and no more are admitted than `max_sessions`.
pub record Inv (s : Server) : Type 0 where
  pub held : length s.sessions ≤ s.active_connections
  pub capped : s.active_connections ≤ s.max_sessions

pub length-erase-le : (i : ℕ) (js : List ℕ) → length (erase i js) ≤ length js
length-erase-le i [] = omega arith
length-erase-le i (j ∷ js) = ground (arith, length-erase-le i js)

module _ (owned : Bool) (t : Timeouts) where
  admit-done :
      (now : ℕ) (peer : Option (List ℕ)) (s u : Server)
      → admit owned now t peer s ≡ done u
      → u ≡ record s { sessions = s.made ∷ s.sessions; made = s.made + 1 }
  unfolding admit
  admit-done now none s u e = cc
  admit-done now (some peer) s u e =
      let (session, _, e') = >>=-eq-done (open_session owned now t) _ e in cc

  after_add-done :
      (now : ℕ) (peer : Option (List ℕ)) (r : Server × Bool) (w : Server × Bool)
      → after_add owned now t peer r ≡ done w
      → ((r.1 ≡ false) × (w.0 ≡ r.0))
        ⊎ ((r.1 ≡ true)
            × (w.0 ≡ record (r.0) { sessions = r.0.made ∷ r.0.sessions; made = r.0.made + 1 }))
  unfolding after_add
  after_add-done now peer (s, false) w e = inl (refl, ground arith)
  after_add-done now peer (s, true) w e =
      let (u, eu, e') = >>=-eq-done (admit owned now t peer s) (λ s'. done (s', true)) e in
      let made = admit-done now peer s u eu in inr (refl, ground arith)

  -- An accepted socket is refused, or its session is made and counted.
  socket_cases :
      (now : ℕ) (peer : Option (List ℕ)) (s u : Server)
      → step owned t (accepted now (socket peer)) s ≡ done u
      → (u ≡ s)
        ⊎ ((s.active_connections < s.max_sessions)
            × (u ≡ record s {
              sessions = s.made ∷ s.sessions;
              made = s.made + 1;
              active_connections = s.active_connections + 1;
            }))
  unfolding step on_accept
  socket_cases now peer s u e = elim (Bool-cases s.is_open) [
    | inr shut ↦ inl (ground arith)
    | inl up ↦
        let (w, ew, e') =
          >>=-eq-done (on_accept owned now t (socket peer) s) (λ (s', again). done s') e in
        let cases = after_add-done now peer (add_connection s) w (ground arith) in
        unfold add_connection in ground arith
  ]

  pub step-Inv : (e : Event) (s u : Server) → Inv s → step owned t e s ≡ done u → Inv u
  step-Inv (accepted now error) s u v e = unfold step on_accept in ground arith
  step-Inv (accepted now (socket peer)) s u v e = ground (arith, socket_cases now peer s u e)
  step-Inv (closed i) s u v e =
      unfold step remove_session in ground (arith, length-erase-le i s.sessions)
  step-Inv stops s u v e = unfold step stop in ground arith

  -- From a server that holds no more sessions than connections counted, and counts no more than
  -- `max_sessions`, every run of accepts, closed sessions and stops that returns ends in such a server.
  pub run-Inv : (es : List Event) (s u : Server) → Inv s → run owned t es s ≡ done u → Inv u
  unfolding run
  run-Inv [] s u v e = ground arith
  run-Inv (x ∷ es) s u v e =
      let (s', ex, e') = >>=-eq-done (step owned t x s) _ e in
      run-Inv es s' u (step-Inv x s s' v ex) e'

  pub step-max_sessions :
      (e : Event) (s u : Server) → step owned t e s ≡ done u → u.max_sessions ≡ s.max_sessions
  step-max_sessions (accepted now error) s u e = unfold step on_accept in ground arith
  step-max_sessions (accepted now (socket peer)) s u e = ground (arith, socket_cases now peer s u e)
  step-max_sessions (closed i) s u e = unfold step remove_session in ground arith
  step-max_sessions stops s u e = unfold step stop in ground arith

  pub run-max_sessions :
      (es : List Event) (s u : Server) → run owned t es s ≡ done u → u.max_sessions ≡ s.max_sessions
  unfolding run
  run-max_sessions [] s u e = ground arith
  run-max_sessions (x ∷ es) s u e =
      let (s', ex, e') = >>=-eq-done (step owned t x s) _ e in
      run-max_sessions es s' u e' ∙ step-max_sessions x s s' ex

  step-full :
      (e : Event) (s u : Server)
      → s.active_connections ≡ s.max_sessions
      → step owned t e s ≡ done u
      → (u.active_connections ≡ u.max_sessions) × (u.made ≡ s.made)
  step-full (accepted now error) s u v e = unfold step on_accept in ground arith
  step-full (accepted now (socket peer)) s u v e = ground (arith, socket_cases now peer s u e)
  step-full (closed i) s u v e = unfold step remove_session in ground arith
  step-full stops s u v e = unfold step stop in ground arith

  -- From a server that counts `max_sessions` connections, no run that returns makes another session or
  -- changes the count, whichever sessions are closed in it.
  pub run-full :
      (es : List Event) (s u : Server)
      → s.active_connections ≡ s.max_sessions
      → run owned t es s ≡ done u
      → (u.active_connections ≡ u.max_sessions) × (u.made ≡ s.made)
  unfolding run
  run-full [] s u v e = ground arith
  run-full (x ∷ es) s u v e =
      let (s', ex, e') = >>=-eq-done (step owned t x s) _ e in
      let (full, same) = step-full x s s' v ex in
      let (full', same') = run-full es s' u full e' in (full', same' ∙ same)

module _ (t : Timeouts) where
  unowned : (now : ℕ) → open_session false now t ≡ throws bad_weak_ptr
  unfolding open_session construct
  unowned now = refl

  -- If no `shared_ptr` owns an object while its constructor runs: for every client with a peer address
  -- that an open server has room for, the accept handler throws `bad_weak_ptr`.
  pub on_accept-unowned :
      (now : ℕ) (peer : List ℕ) (s : Server)
      → s.is_open ≡ true
      → s.active_connections < s.max_sessions
      → on_accept false now t (socket (some peer)) s ≡ throws bad_weak_ptr
  unfolding on_accept after_add add_connection admit
  on_accept-unowned now peer s up room = ground (arith, unowned now)

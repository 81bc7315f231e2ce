-- ===== src/Server/Threads/Invariant.antt =====
-- What holds of the sessions however the threads of a server interleave.
use scalable_tcp_server.Base.{
  ℕ, ◌+◌, ◌≤◌, ◌<◌, ◌≡◌, ◌≢◌, refl, Bool, false, ◌==◌, ◌||◌, List, [], ◌∷◌, Option, none, some,
  done, >>=-eq-done, arith,
}
use mathlib.Core.Path.{subst}
use scalable_tcp_server.Server.{
  Server, Timeouts, Accepted, error, socket, add_connection, remove_session, erase, stop,
  open_session,
}
use scalable_tcp_server.Server.Startup.{idle_server}
use scalable_tcp_server.Server.Threads.{
  Shared, quiet, check_accept, start_session, start_let_in, insert_opening, Moment, accepts, starts,
  inserts, closes, shuts, IsPossible, move, Moves, here, next,
}

abbrev pub contains : ℕ → List ℕ → Bool
contains i [] = false
contains i (j ∷ js) = (i == j) || contains i js

abbrev pub Distinct : List ℕ → Type 0
Distinct [] = Unit {0}
Distinct (j ∷ js) = (contains j js ≡ false) × Distinct js

pub contains-erase-false :
    (i j : ℕ) (js : List ℕ) → contains i js ≡ false → contains i (erase j js) ≡ false
contains-erase-false i j [] h = refl
contains-erase-false i j (k ∷ js) h = ground (arith, contains-erase-false i j js)

pub contains-erase-ne : (i j : ℕ) (js : List ℕ) → i ≢ j → contains i (erase j js) ≡ contains i js
contains-erase-ne i j [] h = refl
contains-erase-ne i j (k ∷ js) h = ground (arith, contains-erase-ne i j js h)

pub contains-erase : (i : ℕ) (js : List ℕ) → Distinct js → contains i (erase i js) ≡ false
contains-erase i [] d = refl
contains-erase i (k ∷ js) d = ground (arith, contains-erase i js d.1)

pub erase-Distinct : (i : ℕ) (js : List ℕ) → Distinct js → Distinct (erase i js)
erase-Distinct i [] d = tt
erase-Distinct i (k ∷ js) d =
    ground (arith, erase-Distinct i js d.1, contains-erase-false k i js d.0)

-- No session is held twice, and none that was not made; the one that is being opened is not held yet.
pub record Inv (w : Shared) : Type 0 where
  pub distinct : Distinct w.server.sessions
  pub unmade : (i : ℕ) → w.server.made ≤ i → contains i w.server.sessions ≡ false
  pub opening_new :
      (i : ℕ) → w.opening ≡ some i → (i < w.server.made) × (contains i w.server.sessions ≡ false)

abbrev pub idle : ℕ → Shared
idle n = quiet (idle_server n)

pub idle-Inv : (n : ℕ) → Inv (idle n)
idle-Inv n = record { distinct = tt; unmade = λ i h. refl; opening_new = λ i e. cc }

-- What the accept handler has done when it comes to the insertion.
pub data Began (s : Server) (u : Shared) : Type 0 where
  refused : u.opening ≡ none → u.server.sessions ≡ s.sessions → u.server.made ≡ s.made → Began s u
  began :
      u.opening ≡ some s.made
      → u.server.sessions ≡ s.sessions
      → u.server.made ≡ s.made + 1
      → Began s u

module _ (owned : Bool) (t : Timeouts) where
  start_session-done :
      (now : ℕ) (peer : Option (List ℕ)) (s : Server) (u : Shared)
      → start_session owned now t peer s ≡ done u
      → Began s u
  unfolding start_session
  start_session-done now none s u e = cc
  start_session-done now (some peer) s u e =
      let (session, _, e') = >>=-eq-done (open_session owned now t) _ e in
      began (ground arith) (ground arith) (ground arith)

  -- Letting a client in makes no session.
  pub check_accept-Began : (a : Accepted) (s : Server) → Began s (check_accept a s)
  unfolding check_accept add_connection
  check_accept-Began error s = refused refl refl refl
  check_accept-Began (socket peer) s = refused (ground arith) (ground arith) (ground arith)

  pub start_let_in-done :
      (now : ℕ) (o : Option (Option (List ℕ))) (s : Server) (u : Shared)
      → start_let_in owned now t o s ≡ done u
      → Began s u
  unfolding start_let_in
  start_let_in-done now none s u e = refused (ground arith) (ground arith) (ground arith)
  start_let_in-done now (some peer) s u e = start_session-done now peer s u e

  Began-Inv : (w u : Shared) → Inv w → Began w.server u → Inv u
  Began-Inv w u v (refused e₁ e₂ e₃) = record {
    distinct = rw e₂ v.distinct;
    unmade = λ i h. ground (arith, v.unmade i);
    opening_new = λ i e. cc;
  }
  Began-Inv w u v (began e₁ e₂ e₃) = record {
    distinct = rw e₂ v.distinct;
    unmade = λ i h. ground (arith, v.unmade i);
    opening_new = λ i e. ground (arith, v.unmade i);
  }

  insert-Inv : (w : Shared) (o : Option ℕ) → w.opening ≡ o → Inv w → Inv (insert_opening w)
  unfolding insert_opening
  insert-Inv w none eo v = record {
    distinct = rw eo v.distinct;
    unmade = λ i h. rw eo (v.unmade i (rw eo at h));
    opening_new = λ i e. cc;
  }
  insert-Inv w (some j) eo v =
      let (made, new) = v.opening_new j eo in
      record {
        distinct = rw eo (new, v.distinct);
        unmade = λ i h. rw eo (let h' = rw eo at h in ground (arith, v.unmade i));
        opening_new = λ i e. cc;
      }

  close-Inv : (j : ℕ) (w : Shared) → Inv w → Inv (record w { server = remove_session j w.server })
  unfolding remove_session
  close-Inv j w v = record {
    distinct = erase-Distinct j w.server.sessions v.distinct;
    unmade = λ i h. contains-erase-false i j w.server.sessions (v.unmade i h);
    opening_new = λ i e.
        let (made, new) = v.opening_new i e in
        (made, contains-erase-false i j w.server.sessions new);
  }

  pub move-Inv :
      (m : Moment) (w u : Shared) → Inv w → IsPossible m w → move owned t m w ≡ done u → Inv u
  unfolding move remove_session stop insert_opening
  move-Inv (accepts a) w u v p e =
      let same : check_accept a w.server ≡ u = cc in
      subst Inv same (Began-Inv w (check_accept a w.server) v (check_accept-Began a w.server))
  move-Inv (starts now) w u v p e = Began-Inv w u v (start_let_in-done now w.let_in w.server u e)
  move-Inv inserts w u v p e =
      let same : insert_opening w ≡ u = cc in subst Inv same (insert-Inv w w.opening refl v)
  move-Inv (closes j) w u v p e =
      let same : record w { server = remove_session j w.server } ≡ u = cc in
      subst Inv same (close-Inv j w v)
  move-Inv shuts w u v p e =
      let same : record w { server = stop w.server } ≡ u = cc in
      subst Inv same
        (record { distinct = v.distinct; unmade = v.unmade; opening_new = v.opening_new })

  pub Moves-Inv : {w u : Shared} {ms : List Moment} → Inv w → Moves owned t w ms u → Inv u
  Moves-Inv v here = v
  Moves-Inv v (next {w} {u} r m p e) = move-Inv m w u (Moves-Inv v r) p e

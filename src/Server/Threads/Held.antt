-- ===== src/Server/Threads/Held.antt =====
-- Which closed sessions the server goes on to hold.
use scalable_tcp_server.Base.{
  ℕ, ◌≤◌, ◌<◌, ◌≡◌, ◌≢◌, ◌⊎◌, ◌↔◌, refl, sym, ap, Bool, true, List, All, Option, none, some, done,
  arith,
}
use mathlib.Core.Path.{subst}
use scalable_tcp_server.Server.{Timeouts, remove_session, stop}
use scalable_tcp_server.Server.Threads.{
  Shared, check_accept, insert_opening, Moment, accepts, starts, inserts, closes, shuts, IsPossible,
  move, Moves, here, next,
}
use scalable_tcp_server.Server.Threads.Invariant.{
  contains, contains-erase-ne, contains-erase, Inv, idle, idle-Inv, Began, refused, began,
  check_accept-Began, start_let_in-done, Moves-Inv,
}

-- The session is held by the server, or will be.
abbrev pub IsHeld : ℕ → Shared → Type 0
IsHeld i w = (w.opening ≡ some i) ⊎ (contains i w.server.sessions ≡ true)

module _ (owned : Bool) (t : Timeouts) where
  Began-IsHeld :
      (i : ℕ) (w u : Shared)
      → i < w.server.made
      → w.opening ≡ none
      → Began w.server u
      → (IsHeld i w ↔ IsHeld i u) × (w.server.made ≤ u.server.made)
  Began-IsHeld i w u h eo (refused e₁ e₂ e₃) = ground arith
  Began-IsHeld i w u h eo (began e₁ e₂ e₃) = ground arith

  insert-IsHeld :
      (i : ℕ) (w : Shared) (o : Option ℕ)
      → w.opening ≡ o
      → (IsHeld i w ↔ IsHeld i (insert_opening w))
        × (w.server.made ≤ (insert_opening w).server.made)
  unfolding insert_opening
  insert-IsHeld i w none eo = ground arith
  insert-IsHeld i w (some j) eo = ground arith

  -- A session that was made is held as before, unless it is the one that closes.
  move-IsHeld :
      (i : ℕ) (m : Moment) (w u : Shared)
      → i < w.server.made
      → m ≢ closes i
      → IsPossible m w
      → move owned t m w ≡ done u
      → (IsHeld i w ↔ IsHeld i u) × (w.server.made ≤ u.server.made)
  unfolding move remove_session stop
  move-IsHeld i (accepts a) w u h other p e =
      let same : check_accept a w.server ≡ u = cc in
      Began-IsHeld i w u h (p.1)
        (subst (Began w.server) same (check_accept-Began owned t a w.server))
  move-IsHeld i (starts now) w u h other p e =
      Began-IsHeld i w u h (p.1) (start_let_in-done owned t now w.let_in w.server u e)
  move-IsHeld i inserts w u h other p e =
      let same : insert_opening w ≡ u = cc in
      subst (λ x. (IsHeld i w ↔ IsHeld i x) × (w.server.made ≤ x.server.made)) same
        (insert-IsHeld i w w.opening refl)
  move-IsHeld i (closes j) w u h other p e =
      ground (arith, contains-erase-ne i j w.server.sessions (λ same. other (ap closes (sym same))))
  move-IsHeld i shuts w u h other p e = ground arith

  Moves-IsHeld :
      (i : ℕ) {w u : Shared} {ms : List Moment}
      → i < w.server.made
      → Moves owned t w ms u
      → All (λ m. m ≢ closes i) ms
      → (IsHeld i w ↔ IsHeld i u) × (w.server.made ≤ u.server.made)
  Moves-IsHeld i h here others = (((λ x. x), λ x. x), omega arith)
  Moves-IsHeld i h (next {w} {u} r m p e) (other, others) =
      let (same, grown) = Moves-IsHeld i h r others in
      let (same', grown') = move-IsHeld i m w u (omega arith) other p e in
      (((λ x. same'.0 (same.0 x)), λ x. same.1 (same'.1 x)), omega arith)

  close-IsHeld :
      (i : ℕ) (w : Shared)
      → Inv w
      → IsHeld i (record w { server = remove_session i w.server }) ↔ (w.opening ≡ some i)
  unfolding remove_session
  close-IsHeld i w v = ground (arith, contains-erase i w.server.sessions v.distinct)

  -- However the threads interleave, from a server that has accepted nobody: when a session that was made
  -- closes, and does not close again, it is at all times afterwards held by the server, or about to be
  -- inserted, exactly if the accept handler had started it and not inserted it when it closed.
  pub closed-IsHeld_iff :
      (n i : ℕ) {before after : List Moment} {w u : Shared}
      → Moves owned t (idle n) before w
      → i < w.server.made
      → Moves owned t (record w { server = remove_session i w.server }) after u
      → All (λ m. m ≢ closes i) after
      → IsHeld i u ↔ (w.opening ≡ some i)
  unfolding remove_session
  closed-IsHeld_iff n i {w} reached made goes_on once =
      let closed = close-IsHeld i w (Moves-Inv owned t (idle-Inv n) reached) in
      let later = (Moves-IsHeld i made goes_on once).0 in
      ((λ held. closed.0 (later.1 held)), λ opening. later.0 (closed.1 opening))

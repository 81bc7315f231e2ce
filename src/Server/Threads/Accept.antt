-- ===== src/Server/Threads/Accept.antt =====
-- The accept handler cut at the insertion is the whole handler, if nothing comes between.
use scalable_tcp_server.Base.{
  ℕ, ◌+◌, ◌≡◌, refl, Bool, true, false, if◌then◌else◌, List, ◌∷◌, ap, ◌∙◌, Option, none, some,
  Outcome, done, throws, fault, stuck, ◌>>=◌,
}
use scalable_tcp_server.Connection.{Session}
use scalable_tcp_server.Server.{
  Server, Timeouts, Accepted, error, socket, add_connection, open_session, after_add, admit,
  on_accept,
}
use scalable_tcp_server.Server.Threads.{
  Shared, quiet, admit_peer, check_accept, start_session, start_let_in, begin_accept, insert,
}

abbrev answer : Bool → Server → Outcome (Server × Bool)
answer again s = done (s, again)

abbrev inserted : Shared → Outcome Server
inserted w = done (insert w.opening w.server)

abbrev finish : Bool → Shared → Outcome (Server × Bool)
finish again w = done (insert w.opening w.server, again)

abbrev admitted : Server → Session → Outcome Server
admitted s session = done (record s { sessions = s.made ∷ s.sessions; made = s.made + 1 })

abbrev started : Server → Session → Outcome Shared
started s session =
    done (record { server = record s { made = s.made + 1 }; let_in = none; opening = some s.made })

module _ (owned : Bool) (t : Timeouts) (now : ℕ) where
  admit-eq :
      (peer : Option (List ℕ)) (s : Server)
      → admit owned now t peer s ≡ (start_session owned now t peer s >>= inserted)
  unfolding admit start_session
  admit-eq none s = refl
  admit-eq (some peer) s = by_result (open_session owned now t)
    where
      by_result : (o : Outcome Session) → (o >>= admitted s) ≡ ((o >>= started s) >>= inserted)
      by_result (done session) = refl
      by_result (throws e) = refl
      by_result fault = refl
      by_result stuck = refl

  abbrev start_checked : Shared → Outcome Shared
  start_checked w = start_let_in owned now t w.let_in w.server

  again :
      (peer : Option (List ℕ)) (r : Server × Bool)
      → after_add owned now t peer r ≡ (start_checked (admit_peer peer r) >>= finish true)
  unfolding after_add start_let_in
  again peer (s, false) = refl
  again peer (s, true) =
      ap (λ o. o >>= answer true) (admit-eq peer s) ∙ by_result (start_session owned now t peer s)
    where
      by_result : (o : Outcome Shared) → ((o >>= inserted) >>= answer true) ≡ (o >>= finish true)
      by_result (done w) = refl
      by_result (throws e) = refl
      by_result fault = refl
      by_result stuck = refl

  -- The accept handler is its three parts, one after the other.
  on_accept-eq :
      (a : Accepted) (s : Server)
      → on_accept owned now t a s ≡ (begin_accept owned now t a s >>= finish s.is_open)
  unfolding on_accept begin_accept check_accept
  on_accept-eq error s = by_flag s.is_open
    where
      by_flag :
          (b : Bool)
          → (if b then answer true s else answer false s) ≡ (start_checked (quiet s) >>= finish b)
      by_flag true = unfold start_let_in in refl
      by_flag false = unfold start_let_in in refl
  on_accept-eq (socket peer) s = by_flag s.is_open
    where
      by_flag :
          (b : Bool)
          → (if b then after_add owned now t peer (add_connection s) else answer false s) ≡ (
              start_checked (if b then admit_peer peer (add_connection s) else quiet s)
              >>= finish b)
      by_flag true = again peer (add_connection s)
      by_flag false = unfold start_let_in in refl

-- ===== src/Server/Whole/Same.antt =====
-- Of the server alone, the accept handler with the sessions is the one without.
use scalable_tcp_server.Base.{
  ℕ, ◌≡◌, refl, ap, sym, ◌∙◌, Bool, true, false, if◌then◌else◌, List, Option, none, some, Outcome,
  done, throws, fault, stuck, ◌>>=◌,
}
use scalable_tcp_server.Connection.{Session}
use scalable_tcp_server.Server.{
  Server, Timeouts, Accepted, error, socket, add_connection, open_session, admit, after_add,
  on_accept,
}
use scalable_tcp_server.Server.Whole.{
  Whole, insert_client, admit_client, after_adding, accept_client,
}

abbrev answered : Bool → Whole → Outcome (Server × Bool)
answered again w = done (w.server, again)

abbrev again_accepts : Server → Outcome (Server × Bool)
again_accepts s = done (s, true)

abbrev outside : Whole → Outcome Server
outside w = done w.server

module _ (owned : Bool) (t : Timeouts) (now : ℕ) where
  admit-server :
      (peer : Option (List ℕ)) (w : Whole)
      → (admit_client owned now t peer w >>= outside) ≡ admit owned now t peer w.server
  unfolding admit_client admit
  admit-server none w = refl
  admit-server (some peer) w = by_result (open_session owned now t)
    where
      by_result :
          (o : Outcome Session)
          → ((o >>= λ session. done (insert_client w session)) >>= outside)
            ≡ (o >>= λ session. done (insert_client w session).server)
      by_result (done session) = refl
      by_result (throws e) = refl
      by_result fault = refl
      by_result stuck = refl

  added-server :
      (peer : Option (List ℕ)) (r : Server × Bool) (w : Whole)
      → (after_adding owned now t peer r w >>= answered true) ≡ after_add owned now t peer r
  unfolding after_adding after_add
  added-server peer (s, false) w = refl
  added-server peer (s, true) w =
      again (admit_client owned now t peer (record w { server = s }))
      ∙ ap (λ o. o >>= again_accepts) (admit-server peer (record w { server = s }))
    where
      again : (o : Outcome Whole) → (o >>= answered true) ≡ ((o >>= outside) >>= again_accepts)
      again (done u) = refl
      again (throws e) = refl
      again fault = refl
      again stuck = refl

  accept-server :
      (a : Accepted) (w : Whole)
      → (accept_client owned now t a w >>= answered w.server.is_open)
        ≡ on_accept owned now t a w.server
  unfolding accept_client on_accept
  accept-server error w = by_flag w.server.is_open
    where
      by_flag :
          (b : Bool)
          → (done w >>= answered b) ≡ (if b then done (w.server, true) else done (w.server, false))
      by_flag true = refl
      by_flag false = refl
  accept-server (socket peer) w = by_flag w.server.is_open
    where
      by_flag :
          (b : Bool)
          → ((if b then after_adding owned now t peer (add_connection w.server) w else done w)
              >>= answered b)
            ≡ (if b
                then after_add owned now t peer (add_connection w.server)
                else done (w.server, false))
      by_flag true = added-server peer (add_connection w.server) w
      by_flag false = refl

  pub accept-server_done :
      (a : Accepted) (w u : Whole)
      → accept_client owned now t a w ≡ done u
      → on_accept owned now t a w.server ≡ done (u.server, w.server.is_open)
  accept-server_done a w u e = sym (accept-server a w) ∙ ap (λ o. o >>= answered w.server.is_open) e

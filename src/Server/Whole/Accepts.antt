-- ===== src/Server/Whole/Accepts.antt =====
-- What the accept handler does with the sessions of the server.
use scalable_tcp_server.Base.{
  ℕ, ◌+◌, ◌≡◌, ◌≢◌, ◌⊎◌, refl, sym, ap, ◌∙◌, Bool, true, false, if◌then◌else◌, List, ◌∷◌, Option,
  none, some, Outcome, done, >>=-eq-done, inl, inr, arith,
}
use mathlib.Core.Path.{subst, ap₂}
use native.Mathlib.Decide.{ℕ_discrete}
use scalable_tcp_server.Connection.{Session}
use scalable_tcp_server.Server.{
  Server, Timeouts, Accepted, error, socket, add_connection, open_session,
}
use scalable_tcp_server.Server.Whole.{
  Whole, put, insert_client, admit_client, after_adding, accept_client,
}

pub put_ne : (i k : ℕ) (s : Session) (f : ℕ → Option Session) → k ≢ i → put i s f k ≡ f k
put_ne i k s f other = ground arith

pub put_none :
    (i k : ℕ) (s : Session) (f : ℕ → Option Session) → put i s f k ≡ none → (k ≢ i) × (f k ≡ none)
put_none i k s f e = elim (ℕ_discrete k i) [
  | yes same ↦ absurd (ground arith)
  | no other ↦ (other, sym (put_ne i k s f other) ∙ e)
]

-- What stands at a place after a session was put at one.
pub put_cases :
    (i k : ℕ) (s s' : Session) (f : ℕ → Option Session)
    → put i s f k ≡ some s'
    → ((k ≡ i) × (s ≡ s')) ⊎ ((k ≢ i) × (f k ≡ some s'))
put_cases i k s s' f e = elim (ℕ_discrete k i) [
  | yes same ↦ inl (same, ground arith)
  | no other ↦ inr (other, sym (put_ne i k s f other) ∙ e)
]

-- What the accept handler does with the sessions.
pub data Accepts (opens : Outcome Session) (w u : Whole) : Type 0 where
  refuses :
      u.client ≡ w.client
      → u.server.sessions ≡ w.server.sessions
      → u.server.made ≡ w.server.made
      → Accepts opens w u
  admits :
      (session : Session)
      → opens ≡ done session
      → u.client ≡ put w.server.made session w.client
      → u.server.sessions ≡ w.server.made ∷ w.server.sessions
      → u.server.made ≡ w.server.made + 1
      → Accepts opens w u

module _ (owned : Bool) (t : Timeouts) (now : ℕ) where
  admit_client-Accepts :
      (peer : Option (List ℕ)) (w u : Whole)
      → admit_client owned now t peer w ≡ done u
      → Accepts (open_session owned now t) w u
  unfolding admit_client
  admit_client-Accepts none w u e = cc
  admit_client-Accepts (some peer) w u e =
      let (session, es, e') = >>=-eq-done (open_session owned now t) _ e in
      let same : insert_client w session ≡ u = cc in
      subst (Accepts (open_session owned now t) w) same (admits session es refl refl refl)

  after_adding-Accepts :
      (peer : Option (List ℕ)) (r : Server × Bool) (w u : Whole)
      → r.0.sessions ≡ w.server.sessions
      → r.0.made ≡ w.server.made
      → after_adding owned now t peer r w ≡ done u
      → Accepts (open_session owned now t) w u
  unfolding after_adding
  after_adding-Accepts peer (s, false) w u es em e =
      let same : record w { server = s } ≡ u = cc in
      subst (Accepts (open_session owned now t) w) same (refuses refl es em)
  after_adding-Accepts peer (s, true) w u es em e =
      kept (admit_client-Accepts peer (record w { server = s }) u e)
    where
      kept :
          Accepts (open_session owned now t) (record w { server = s }) u
          → Accepts (open_session owned now t) w u
      kept (refuses e₁ e₂ e₃) = refuses e₁ (e₂ ∙ es) (e₃ ∙ em)
      kept (admits session eo e₁ e₂ e₃) =
          admits session eo (e₁ ∙ ap (λ m. put m session w.client) em)
            (e₂ ∙ ap₂ (λ m ms. m ∷ ms) em es) (e₃ ∙ ap (λ m. m + 1) em)

  add_connection-kept :
      (s : Server)
      → ((add_connection s).0.sessions ≡ s.sessions) × ((add_connection s).0.made ≡ s.made)
  unfolding add_connection
  add_connection-kept s = ground arith

  pub accept_client-Accepts :
      (a : Accepted) (w u : Whole)
      → accept_client owned now t a w ≡ done u
      → Accepts (open_session owned now t) w u
  unfolding accept_client
  accept_client-Accepts error w u e =
      let same : w ≡ u = cc in
      subst (Accepts (open_session owned now t) w) same (refuses refl refl refl)
  accept_client-Accepts (socket peer) w u e = by_flag w.server.is_open e
    where
      by_flag :
          (b : Bool)
          → (if b then after_adding owned now t peer (add_connection w.server) w else done w)
            ≡ done u
          → Accepts (open_session owned now t) w u
      by_flag true e =
          let (es, em) = add_connection-kept w.server in
          after_adding-Accepts peer (add_connection w.server) w u es em e
      by_flag false e =
          let same : w ≡ u = cc in
          subst (Accepts (open_session owned now t) w) same (refuses refl refl refl)

-- ===== src/Connection/Peer.antt =====
-- src/session/session.cpp: the getters of the peer's address, and the login that asks for it.
use scalable_tcp_server.Base.{
  ℕ, ◌≡◌, ap, ◌∙◌, Bool, true, false, if◌then◌else◌, ◌||◌, not, ltb, List, [], ◌∷◌, length, Option,
  none, some, Outcome, done,
}
use scalable_tcp_server.Word.{Host}
use scalable_tcp_server.Validation.{is_valid_user_id}
use scalable_tcp_server.Auth.{LoginRequest}
use scalable_tcp_server.Auth.Statement.{Statement, select, insert}
use scalable_tcp_server.Auth.Service.{session_id_literal, login}
use scalable_tcp_server.Auth.Service.Guards.{login-executes}
use scalable_tcp_server.Connection.{Session}
use scalable_tcp_server.Connection.Lifecycle.{construct}
use scalable_tcp_server.Connection.Events.{start, Reach}
use scalable_tcp_server.Connection.Events.Invariant.{Reach-Inv}

-- A `tcp::endpoint`, with the text of its address.
pub record Endpoint : Type 0 where
  pub address : List ℕ
  pub port : ℕ

-- `remote_endpoint` is what asio says of a socket that is open or closed, nothing for an error, with
-- which it returns an endpoint that is constructed by default, `unspecified`.
module _ (remote_endpoint : (is_open : Bool) → Option Endpoint) (unspecified : Endpoint) where
  abbrev endpoint_or_default : Option Endpoint → Endpoint
  endpoint_or_default none = unspecified
  endpoint_or_default (some endpoint) = endpoint

  -- `socket_.remote_endpoint(ec)`, whose error is dropped.
  unfoldable pub get_remote_endpoint : Session → Endpoint
  get_remote_endpoint s = endpoint_or_default (remote_endpoint s.is_open)

  unfoldable pub get_remote_address : Session → List ℕ
  unfolding get_remote_endpoint
  get_remote_address s = (get_remote_endpoint s).address

  unfoldable pub get_remote_port : Session → ℕ
  unfolding get_remote_endpoint
  get_remote_port s = (get_remote_endpoint s).port

  closed-address :
      (s : Session)
      → remote_endpoint false ≡ none
      → s.is_open ≡ false
      → get_remote_address s ≡ unspecified.address
  unfolding get_remote_address
  closed-address s nowhere shut =
      ap (λ o. (endpoint_or_default o).address) (ap remote_endpoint shut ∙ nowhere)

-- With a database that answers, asio's documented error for a closed socket, and a session that is
-- built and started on objects that a `shared_ptr` owns and that has been stopped when its login asks
-- for its address: the login returns and has executed nothing, if the user id is well-formed or shorter
-- than 4 bytes or the password is shorter than 6; and else the selection, and, if a row came back, the
-- insertion of a session at the address of an endpoint that is constructed by default, whatever the
-- address of the peer was.
pub login-stopped :
    {host : Host} {deserialize : List ℕ → Outcome LoginRequest} {built initial t : Session}
    {packets : List (List ℕ)} {found inserted : Bool}
    → (now seconds_idle read_seconds seconds_write : ℕ)
    → construct true seconds_idle read_seconds seconds_write ≡ done built
    → start true now built ≡ done initial
    → Reach host deserialize initial packets t
    → t.stopped ≡ true
    → (remote_endpoint : Bool → Option Endpoint) (unspecified : Endpoint)
      (connect : Outcome (Unit {0})) (execute : Statement → Outcome Bool) (request : LoginRequest)
    → remote_endpoint false ≡ none
    → connect ≡ done tt
    → execute (select request.user_id request.password) ≡ done found
    → execute (insert session_id_literal request.user_id unspecified.address) ≡ done inserted
    → login connect execute (get_remote_address remote_endpoint unspecified t) request []
      ≡ done (
        tt,
        if is_valid_user_id request.user_id
              || ltb (length request.user_id) 4
              || ltb (length request.password) 6
            then []
            else select request.user_id request.password
              ∷ (if found
                  then insert session_id_literal request.user_id unspecified.address ∷ []
                  else []),
      )
login-stopped {t} now idle read write eb ei r stopped remote_endpoint unspecified connect execute
      request nowhere c s i =
    let v = Reach-Inv now idle read write eb ei r in
    ap (λ ip. login connect execute ip request [])
      (closed-address remote_endpoint unspecified t nowhere (v.open_lem ∙ ap not stopped))
    ∙ login-executes connect execute unspecified.address request c s i

-- ===== src/Auth/Service/Guards.antt =====
-- What a login does, as a function of what the guards say.
use scalable_tcp_server.Base.{
  ℕ, ◌≤◌, ◌≡◌, ◌⊎◌, true, false, Bool, ◌||◌, ltb, List, [], ◌∷◌, length, Outcome, done, arith,
  if◌then◌else◌,
}
use scalable_tcp_server.Validation.{
  is_valid_user_id, is_valid_user_id_length, is_valid_password_length,
}
use scalable_tcp_server.Auth.{LoginRequest}
use scalable_tcp_server.Auth.Statement.{Statement, select, insert}
use scalable_tcp_server.Auth.Service.{session_id_literal, login}

-- A request for which the service goes on to the database.
pub record IsServed (request : LoginRequest) : Type 0 where
  pub malformed : is_valid_user_id request.user_id ≡ false
  pub long_id : 4 ≤ length request.user_id
  pub long_password : 6 ≤ length request.password

module _ (connect : Outcome (Unit {0})) (execute : Statement → Outcome Bool) (ip : List ℕ)
    (request : LoginRequest) where
  -- A well-formed user id is never looked up: the coroutine returns and has executed nothing.
  login_well_formed :
      (log : List Statement)
      → is_valid_user_id request.user_id ≡ true
      → login connect execute ip request log ≡ done (tt, log)
  unfolding login
  login_well_formed log valid = ground arith

  -- A login that returns, started with nothing executed, has executed nothing, or a selection, or a
  -- selection and an insertion, and something only for a malformed user id of 4 bytes or more and a
  -- password of 6 or more; it never has executed the update.
  pub login-done :
      (after : List Statement)
      → login connect execute ip request [] ≡ done (tt, after)
      → (after ≡ [])
        ⊎ (IsServed request
            × ((after ≡ select request.user_id request.password ∷ [])
                ⊎ (after
                    ≡ select request.user_id request.password
                      ∷ insert session_id_literal request.user_id ip
                      ∷ [])))
  unfolding login is_valid_user_id_length is_valid_password_length
  login-done after e = ground arith

  -- For a malformed user id of 4 bytes or more and a password of 6 or more, with a database that
  -- answers, a login executes the selection of the user, and if a row came back the insertion of a
  -- session after it, and nothing else.
  login_served :
      {found inserted : Bool}
      → IsServed request
      → connect ≡ done tt
      → execute (select request.user_id request.password) ≡ done found
      → execute (insert session_id_literal request.user_id ip) ≡ done inserted
      → login connect execute ip request []
        ≡ done (
          tt,
          if found
              then select request.user_id request.password
                ∷ insert session_id_literal request.user_id ip
                ∷ []
              else select request.user_id request.password ∷ [],
        )
  unfolding login is_valid_user_id_length is_valid_password_length
  login_served served c s i = ground arith

  -- With a database that answers, a login returns and has executed: nothing, if the user id is
  -- well-formed or shorter than 4 bytes or the password is shorter than 6; and else the selection of
  -- the user, and, if a row came back, the insertion of a session after it.
  pub login-executes :
      {found inserted : Bool}
      → connect ≡ done tt
      → execute (select request.user_id request.password) ≡ done found
      → execute (insert session_id_literal request.user_id ip) ≡ done inserted
      → login connect execute ip request []
        ≡ done (
          tt,
          if is_valid_user_id request.user_id
                || ltb (length request.user_id) 4
                || ltb (length request.password) 6
              then []
              else select request.user_id request.password
                ∷ (if found then insert session_id_literal request.user_id ip ∷ [] else []),
        )
  unfolding login is_valid_user_id_length is_valid_password_length
  login-executes c s i = ground arith

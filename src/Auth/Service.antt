-- ===== src/Auth/Service.antt =====
-- `AuthService::login` and `AuthRepository`. A coroutine acts only when it is awaited; what it does
-- is seen in the statements that the database has executed, in their order.
mod Monad
pub mod Guards
use Monad.{Coroutine, pure, ◌>>=◌, ◌>>◌}
use scalable_tcp_server.Base.{
  ℕ, Bool, List, [], ◌∷◌, ◌++◌, Outcome, done, throws, fault, stuck, if◌then◌else◌,
}
use scalable_tcp_server.Validation.{
  is_valid_user_id, is_valid_user_id_length, is_valid_password_length,
}
use scalable_tcp_server.Auth.{LoginRequest}
use scalable_tcp_server.Auth.Statement.{Statement, select, insert, update}

-- The literal "session_id".
abbrev pub session_id_literal : List ℕ
session_id_literal = b's' ∷ b'e' ∷ b's' ∷ b's' ∷ b'i' ∷ b'o' ∷ b'n' ∷ b'_' ∷ b'i' ∷ b'd' ∷ []

-- The database behind the connection pool: `connect` gets a connection, and `execute` prepares and
-- executes a statement and says whether rows came back (a selection) or an id was assigned (an
-- insertion). Both may throw.
module _ (connect : Outcome (Unit {0})) (execute : Statement → Outcome Bool) where
  unfoldable pub get_connection : Coroutine (Unit {0})
  get_connection log = elim connect [
    | done u ↦ done (u, log)
    | throws e ↦ throws e
    | fault ↦ fault
    | stuck ↦ stuck
  ]

  unfoldable pub run_statement : Statement → Coroutine Bool
  run_statement s log = elim (execute s) [
    | done answer ↦ done (answer, log ++ s ∷ [])
    | throws e ↦ throws e
    | fault ↦ fault
    | stuck ↦ stuck
  ]

  unfoldable pub select_user : LoginRequest → Coroutine Bool
  unfolding run_statement
  select_user request = run_statement (select request.user_id request.password)

  unfoldable pub insert_user : List ℕ → List ℕ → List ℕ → Coroutine Bool
  unfolding run_statement
  insert_user session_id user_id ip = run_statement (insert session_id user_id ip)

  unfoldable pub update_user : LoginRequest → Coroutine (Unit {0})
  unfolding run_statement
  update_user request = run_statement (update request.user_id) >>= λ _. pure tt

  unfoldable pub login : (remote_address : List ℕ) → LoginRequest → Coroutine (Unit {0})
  unfolding get_connection select_user insert_user update_user
  login ip request =
      if is_valid_user_id request.user_id
      then pure tt
      else if is_valid_user_id_length request.user_id
      then pure tt
      else if is_valid_password_length request.password
      then pure tt
      else do
        get_connection
        finded ← select_user request
        if finded
            then (do
              inserted ← insert_user session_id_literal request.user_id ip
              -- `repo.updateUser(conn, request);`: the awaitable is made and dropped.
              let dropped = update_user request
              if inserted then pure tt else pure tt)
            else pure tt

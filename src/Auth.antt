-- ===== src/Auth.antt =====
-- common/auth, src/router and src/components/auth: the action codes, the router, the handler of
-- authentication packets, and the login service over its repository.
pub mod Handler
pub mod Response
pub mod Statement
pub mod Service
mod Runs
use scalable_tcp_server.Base.{ℕ, Bool, List, ◌==◌, if◌then◌else◌, not}

pub data AuthAction : Type 0 where
  unknown login login_response register register_response : AuthAction

abbrev pub action_value : AuthAction → ℕ
action_value unknown = 0
action_value login = 10
action_value login_response = 11
action_value register = 20
action_value register_response = 21

abbrev pub same_action : AuthAction → AuthAction → Bool
same_action a b = action_value a == action_value b

unfoldable pub action_from_byte : ℕ → AuthAction
action_from_byte action =
    if action == 10
    then AuthAction.login
    else if action == 11
    then AuthAction.register
    else AuthAction.unknown

unfoldable pub validate_action : ℕ → Bool
unfolding action_from_byte
validate_action action = not (same_action (action_from_byte action) AuthAction.unknown)

-- The texts are lists of bytes.
pub record LoginRequest : Type 0 where
  pub user_id : List ℕ
  pub password : List ℕ

-- ===== src/Auth/Response.antt =====
-- The answer to a login, of common/auth/auth_types.hpp with common/auth/error_code.hpp. No code makes
-- one yet.
use scalable_tcp_server.Base.{ℕ, ◌≡◌, refl, List}
use scalable_tcp_server.Locales.ErrorCodes

pub data AuthStatus : Type 0 where
  error success : AuthStatus

abbrev pub status_value : AuthStatus → ℕ
status_value AuthStatus.error = 1
status_value AuthStatus.success = 2

pub data ErrorCode : Type 0 where
  success invalid_user_id invalid_user_id_length invalid_password_length database_user_not_found
        database_insert_failed :
      ErrorCode

abbrev pub error_code_value : ErrorCode → ℕ
error_code_value ErrorCode.success = 1
error_code_value ErrorCode.invalid_user_id = 101
error_code_value ErrorCode.invalid_user_id_length = 102
error_code_value ErrorCode.invalid_password_length = 103
error_code_value ErrorCode.database_user_not_found = 201
error_code_value ErrorCode.database_insert_failed = 202

pub record LoginResponse : Type 0 where
  pub status : AuthStatus
  pub error_code : ErrorCode
  pub session_id : List ℕ

-- The code that the locales know an error by.
abbrev locale_code : ErrorCode → ℕ
locale_code ErrorCode.success = ErrorCodes.success
locale_code ErrorCode.invalid_user_id = ErrorCodes.invalid_user_id
locale_code ErrorCode.invalid_user_id_length = ErrorCodes.invalid_user_id_length
locale_code ErrorCode.invalid_password_length = ErrorCodes.invalid_password_length
locale_code ErrorCode.database_user_not_found = ErrorCodes.database_user_not_found
locale_code ErrorCode.database_insert_failed = ErrorCodes.database_insert_failed

-- The two headers give an error the same code.
error_code_value-locale_code : (e : ErrorCode) → error_code_value e ≡ locale_code e
error_code_value-locale_code ErrorCode.success = refl
error_code_value-locale_code ErrorCode.invalid_user_id = refl
error_code_value-locale_code ErrorCode.invalid_user_id_length = refl
error_code_value-locale_code ErrorCode.invalid_password_length = refl
error_code_value-locale_code ErrorCode.database_user_not_found = refl
error_code_value-locale_code ErrorCode.database_insert_failed = refl

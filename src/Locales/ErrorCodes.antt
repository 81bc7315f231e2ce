-- ===== src/Locales/ErrorCodes.antt =====
-- common/locales/error_codes.hpp. An error code is its `uint16_t`, since the source casts any number to
-- `ErrorCodes`.
use scalable_tcp_server.Base.{ℕ}

abbrev pub success : ℕ
success = 1

abbrev pub invalid_user_id : ℕ
invalid_user_id = 101

abbrev pub invalid_user_id_length : ℕ
invalid_user_id_length = 102

abbrev pub invalid_password_length : ℕ
invalid_password_length = 103

abbrev pub database_user_not_found : ℕ
database_user_not_found = 201

abbrev pub database_insert_failed : ℕ
database_insert_failed = 202

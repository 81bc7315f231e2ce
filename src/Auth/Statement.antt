-- ===== src/Auth/Statement.antt =====
-- The SQL statements of auth_repository.cpp, with the values that are bound.
use scalable_tcp_server.Base.{ℕ, List}

pub data Statement : Type 0 where
  select : (user_id password : List ℕ) → Statement
  insert : (session_id user_id ip : List ℕ) → Statement
  update : (user_id : List ℕ) → Statement

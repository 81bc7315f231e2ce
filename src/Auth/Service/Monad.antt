-- ===== src/Auth/Service/Monad.antt =====
-- A coroutine over the log of executed statements.
use scalable_tcp_server.Base.{List, Outcome, done, throws, fault, stuck}
use scalable_tcp_server.Auth.Statement.{Statement}

abbrev pub Coroutine : Type 0 → Type 0
Coroutine A = List Statement → Outcome (A × List Statement)

abbrev pub pure : {A : Type 0} → A → Coroutine A
pure a log = done (a, log)

infixl 5 ◌>>=◌ ◌>>◌
abbrev pub ◌>>=◌ : {A B : Type 0} → Coroutine A → (A → Coroutine B) → Coroutine B
◌>>=◌ m f log = elim (m log) [
  | done (a, log') ↦ f a log'
  | throws e ↦ throws e
  | fault ↦ fault
  | stuck ↦ stuck
]

abbrev pub ◌>>◌ : {B : Type 0} → Coroutine (Unit {0}) → Coroutine B → Coroutine B
m >> k = m >>= λ _. k

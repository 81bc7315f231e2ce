-- ===== src/Application/Main/Caught.antt =====
-- No exception passes the `catch` of `main`, which is for a `std::exception`.
use scalable_tcp_server.Base.{ℕ, ◌≡◌, Bool, true, List, Outcome, done, throws, fault, stuck}
use scalable_tcp_server.Logger.{Logger}
use scalable_tcp_server.Server.Startup.{Network}
use scalable_tcp_server.Application.{Application, is_std}

-- The call returns, or throws a `std::exception`.
abbrev pub IsCaught {ℓ} : {A : Type ℓ} → Outcome A → Type 0
IsCaught (done a) = Unit {0}
IsCaught (throws e) = is_std e ≡ true
IsCaught fault = ⊥
IsCaught stuck = ⊥

-- asio throws exceptions of its own, which are `std::exception`s.
pub record IsNetwork (net : Network) : Type 0 where
  pub make_address : (host : List ℕ) → IsCaught (net.make_address host)
  pub open_for : (address : net.Address) → IsCaught (net.open_for address)
  pub set_reuse_address : (reuse : Bool) → IsCaught (net.set_reuse_address reuse)
  pub bind : (address : net.Address) (port : ℕ) → IsCaught (net.bind address port)
  pub listen : (backlog : ℕ) → IsCaught (net.listen backlog)

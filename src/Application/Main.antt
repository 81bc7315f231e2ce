-- ===== src/Application/Main.antt =====
-- src/main.cpp: the whole program, in its `try` block.
pub mod Endings
pub mod Caught
use scalable_tcp_server.Base.{
  ℕ, ◌≡◌, refl, ap, sym, ◌∙◌, Bool, true, false, if◌then◌else◌, ◌⊎◌, inl, inr, List, Option, none,
  some, Outcome, done, throws, fault, stuck, Exception, ◌>>=◌, ◌↔◌,
}
use scalable_tcp_server.Files.{Source}
use scalable_tcp_server.Config.{Json}
use scalable_tcp_server.Server.Startup.{Network, Workers, joined, terminated}
use scalable_tcp_server.Application.{Application, is_std, new_application, run_application}

-- How the program ends: `main` returns a status and has printed the text of an exception or nothing, or
-- `std::terminate` ends it.
pub data Ending : Type 0 where
  exits : (printed : Option Exception) → (status : ℕ) → Ending
  aborts : Ending

-- What the `try` block comes to when no exception leaves it.
unfoldable pub ended : Bool × Workers → Ending
ended (accepting, joined threads) = exits none 0
ended (accepting, terminated) = aborts

-- The `catch` clause, and what follows it.
unfoldable pub catch_std : Outcome (Bool × Workers) → Outcome Ending
unfolding ended
catch_std (done r) = done (ended r)
catch_std (throws e) = if is_std e then done (exits (some e) 0) else throws e
catch_std fault = fault
catch_std stuck = stuck

module _ (j : Json) (parse : List ℕ → Option j.Value) where
  unfoldable pub main :
      (net : Network) (creates : List ℕ → Bool) (spawns : ℕ → Bool) (empty : j.Object)
      (first second : Option Source)
      → Outcome Ending
  unfolding catch_std
  main net creates spawns empty first second =
      catch_std
        (new_application j parse net creates empty first second >>= run_application j parse spawns)

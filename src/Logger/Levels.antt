-- ===== src/Logger/Levels.antt =====
-- The names of the levels.
use scalable_tcp_server.Base.{
  ℕ, ◌≡◌, ◌↔◌, refl, List, done, codes, same_text, same_text→eq, arith, ap, ◌∙◌,
}
use scalable_tcp_server.Logger.{
  LogLevel, debug, info, notice, warning, error, critical, alert, emergency, get_level,
  level_to_string,
}

get_level-to_string : (l : LogLevel) → get_level (level_to_string l) ≡ done l
unfolding get_level level_to_string same_text
get_level-to_string debug = refl
get_level-to_string info = refl
get_level-to_string notice = refl
get_level-to_string warning = refl
get_level-to_string error = refl
get_level-to_string critical = refl
get_level-to_string alert = refl
get_level-to_string emergency = refl

-- `getLevel` returns a level exactly for the text that `levelToString` gives for it.
pub get_level-done_iff :
    (text : List ℕ) (l : LogLevel) → (get_level text ≡ done l) ↔ (text ≡ level_to_string l)
unfolding get_level
get_level-done_iff text l = (
  (λ e.
      unfold level_to_string in
      ground (
        arith,
        same_text→eq text (codes "Debug"),
        same_text→eq text (codes "Info"),
        same_text→eq text (codes "Notice"),
        same_text→eq text (codes "Warning"),
        same_text→eq text (codes "Error"),
        same_text→eq text (codes "Critical"),
        same_text→eq text (codes "Alert"),
        same_text→eq text (codes "Emergency"),
      )),
  λ e. ap get_level e ∙ get_level-to_string l,
)

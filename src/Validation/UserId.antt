-- ===== src/Validation/UserId.antt =====
-- Which texts pass the user id tests.
use scalable_tcp_server.Base.{ℕ, ◌≤◌, ◌≡◌, ◌≢◌, ◌↔◌, ◌⊎◌, refl, true, List, [], ◌∷◌, All, arith}
use scalable_tcp_server.Validation.{is_user_id_char, all_chars, is_valid_user_id}

-- A letter, a digit, or one of `_`, `.` and `-`.
abbrev pub IsUserIdChar : ℕ → Type 0
IsUserIdChar c =
    ((b'a' ≤ c) × (c ≤ b'z'))
    ⊎ ((b'A' ≤ c) × (c ≤ b'Z'))
    ⊎ ((b'0' ≤ c) × (c ≤ b'9'))
    ⊎ (c ≡ b'_')
    ⊎ (c ≡ b'.')
    ⊎ (c ≡ b'-')

char_iff : (c : ℕ) → (is_user_id_char c ≡ true) ↔ IsUserIdChar c
unfolding is_user_id_char
char_iff c = ground arith

all_chars_iff : (cs : List ℕ) → (all_chars is_user_id_char cs ≡ true) ↔ All IsUserIdChar cs
unfolding all_chars
all_chars_iff [] = ((λ _. tt), λ _. refl)
all_chars_iff (c ∷ cs) = (
  (λ h. ((char_iff c).0 (ground arith), (all_chars_iff cs).0 (ground arith))),
  λ (h, t). ground (arith, (char_iff c).1 h, (all_chars_iff cs).1 t),
)

-- A text is a valid user id exactly if it is not empty and holds letters, digits, `_`, `.` and `-`.
pub is_valid_user_id_iff :
    (cs : List ℕ) → (is_valid_user_id cs ≡ true) ↔ ((cs ≢ []) × All IsUserIdChar cs)
unfolding is_valid_user_id
is_valid_user_id_iff [] = ((λ h. cc), λ (h, _). absurd (h refl))
is_valid_user_id_iff (c ∷ cs) = (
  (λ h. ((λ e. cc), (all_chars_iff (c ∷ cs)).0 (ground arith))),
  λ (_, t). ground (arith, (all_chars_iff (c ∷ cs)).1 t),
)

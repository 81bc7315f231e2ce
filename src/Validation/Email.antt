-- ===== src/Validation/Email.antt =====
-- Which texts pass the e-mail test.
use scalable_tcp_server.Base.{
  ℕ, ◌≤◌, ◌≡◌, ◌≢◌, ◌↔◌, ◌⊎◌, refl, ap, ◌∙◌, Bool, is_empty, true, List, [], ◌∷◌, ◌++◌, length, All,
  arith,
}
use mathlib.Core.Path.{ap₂}
use scalable_tcp_server.Validation.{
  is_local_char, is_domain_char, is_ending_char, is_character, is_valid_email,
}
use scalable_tcp_server.Validation.Pattern.{
  Matcher, Are, some_of, one, two_or_three, some_of_iff, one_iff, two_or_three_iff,
}
use scalable_tcp_server.Validation.UserId.{IsUserIdChar}

abbrev pub IsEndingChar : ℕ → Type 0
IsEndingChar c = ((b'a' ≤ c) × (c ≤ b'z')) ⊎ ((b'A' ≤ c) × (c ≤ b'Z')) ⊎ ((b'0' ≤ c) × (c ≤ b'9'))

abbrev pub IsDomainChar : ℕ → Type 0
IsDomainChar c = IsEndingChar c ⊎ (c ≡ b'_') ⊎ (c ≡ b'-')

-- A byte of a user id, or one of the brackets, the backslash, the caret and the backquote.
abbrev pub IsLocalChar : ℕ → Type 0
IsLocalChar c = IsUserIdChar c ⊎ (c ≡ b'[') ⊎ (c ≡ b'\\') ⊎ (c ≡ b']') ⊎ (c ≡ b'^') ⊎ (c ≡ b'`')

local_iff : (c : ℕ) → (is_local_char c ≡ true) ↔ IsLocalChar c
unfolding is_local_char
local_iff c = ground arith

domain_iff : (c : ℕ) → (is_domain_char c ≡ true) ↔ IsDomainChar c
unfolding is_domain_char
domain_iff c = ground arith

ending_iff : (c : ℕ) → (is_ending_char c ≡ true) ↔ IsEndingChar c
unfolding is_ending_char
ending_iff c = ground arith

Are-iff :
    (class : ℕ → Bool) (P : ℕ → Type 0)
    → ((c : ℕ) → (class c ≡ true) ↔ P c)
    → (cs : List ℕ) → Are class cs ↔ All P cs
Are-iff class P h [] = ((λ _. tt), λ _. tt)
Are-iff class P h (c ∷ cs) = (
  (λ (hc, hs). ((h c).0 hc, (Are-iff class P h cs).0 hs)),
  λ (hc, hs). ((h c).1 hc, (Are-iff class P h cs).1 hs),
)

-- The pattern from the ending, the dot, the domain and the at sign on.
abbrev ending_part : Matcher
ending_part = two_or_three is_ending_char is_empty

abbrev dot_part : Matcher
dot_part = one (is_character b'.') ending_part

abbrev domain_part : Matcher
domain_part = some_of is_domain_char dot_part

abbrev at_part : Matcher
at_part = one (is_character b'@') domain_part

is_character_iff : (d c : ℕ) → (is_character d c ≡ true) ↔ (c ≡ d)
is_character_iff d c = ground arith

dotted_iff :
    (cs : List ℕ)
    → (dot_part cs ≡ true) ↔ (
        (ending : List ℕ) × (cs ≡ b'.' ∷ ending)
        × ((length ending ≡ 2) ⊎ (length ending ≡ 3))
        × All IsEndingChar ending)
dotted_iff cs = (
  (λ h.
      let (c, ending, e, hc, he) = (one_iff (is_character b'.') ending_part cs).0 h in
      let (size, are) = (two_or_three_iff is_ending_char ending).0 he in
      (
        ending,
        e ∙ ap (λ x. x ∷ ending) ((is_character_iff b'.' c).0 hc),
        size,
        (Are-iff is_ending_char IsEndingChar ending_iff ending).0 are,
      )),
  λ (ending, e, size, are). (one_iff (is_character b'.') ending_part cs).1 (
    b'.',
    ending,
    e,
    refl,
    (two_or_three_iff is_ending_char ending).1
        (size, (Are-iff is_ending_char IsEndingChar ending_iff ending).1 are),
  ),
)

-- A text is a valid e-mail address exactly if it is a local part, an at sign, a domain, a dot and an
-- ending: the local part is not empty and holds letters, digits, `_`, `.`, `-` and the five characters
-- between Z and a that are left, the domain is not empty and holds letters, digits, `_` and `-`, and the
-- ending is two or three letters and digits.
pub is_valid_email_iff :
    (email : List ℕ)
    → (is_valid_email email ≡ true) ↔ (
        (local : List ℕ) × (domain : List ℕ) × (ending : List ℕ) × (email
          ≡ local ++ b'@' ∷ (domain ++ b'.' ∷ ending))
        × (local ≢ [])
        × All IsLocalChar local
        × (domain ≢ [])
        × All IsDomainChar domain
        × ((length ending ≡ 2) ⊎ (length ending ≡ 3))
        × All IsEndingChar ending)
unfolding is_valid_email
is_valid_email_iff email = (
  (λ h.
      let (local, r₁, e₁, n₁, h₁, m₁) = (some_of_iff is_local_char at_part email).0 h in
      let (at_sign, r₂, e₂, h₂, m₂) = (one_iff (is_character b'@') domain_part r₁).0 m₁ in
      let (domain, r₃, e₃, n₃, h₃, m₃) = (some_of_iff is_domain_char dot_part r₂).0 m₂ in
      let (ending, e₄, size, h₅) = (dotted_iff r₃).0 m₃ in
      (
        local,
        domain,
        ending,
        e₁
            ∙ ap (λ r. local ++ r)
                (e₂
                  ∙ ap₂ (λ c r. c ∷ r) ((is_character_iff b'@' at_sign).0 h₂)
                      (e₃ ∙ ap (λ r. domain ++ r) e₄)),
        n₁,
        (Are-iff is_local_char IsLocalChar local_iff local).0 h₁,
        n₃,
        (Are-iff is_domain_char IsDomainChar domain_iff domain).0 h₃,
        size,
        h₅,
      )),
  λ (local, domain, ending, e, n₁, h₁, n₃, h₃, size, h₅).
      let dotted = (dotted_iff (b'.' ∷ ending)).1 (ending, refl, size, h₅) in
      let named = (some_of_iff is_domain_char dot_part (domain ++ b'.' ∷ ending)).1 (
        domain,
        b'.' ∷ ending,
        refl,
        n₃,
        (Are-iff is_domain_char IsDomainChar domain_iff domain).1 h₃,
        dotted,
      ) in
      let signed =
        (one_iff (is_character b'@') domain_part (b'@' ∷ (domain ++ b'.' ∷ ending))).1
          (b'@', domain ++ b'.' ∷ ending, refl, refl, named) in
      (some_of_iff is_local_char at_part email).1 (
        local,
        b'@' ∷ (domain ++ b'.' ∷ ending),
        e,
        n₁,
        (Are-iff is_local_char IsLocalChar local_iff local).1 h₁,
        signed,
      ),
)

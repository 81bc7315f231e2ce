-- ===== src/Validation/Runs.antt =====
-- The tests of texts at concrete ones.
use scalable_tcp_server.Base.{
  ℕ, ◌≡◌, ◌≢◌, ◌↔◌, ◌⊎◌, refl, true, false, List, [], ◌∷◌, ◌++◌, length, All, codes,
}
use scalable_tcp_server.Validation.{
  is_valid_user_id, is_valid_email, is_local_char, is_domain_char, is_ending_char,
}
use scalable_tcp_server.Validation.Pattern.{some_of, one, many, optional, two_or_three}
use scalable_tcp_server.Validation.UserId.{IsUserIdChar, is_valid_user_id_iff}
use scalable_tcp_server.Validation.Email.{
  IsLocalChar, IsDomainChar, IsEndingChar, is_valid_email_iff,
}

abbrev dotted : List ℕ
dotted = b'a' ∷ b'.' ∷ b'7' ∷ []

is_valid_user_id_iff_example :
    (is_valid_user_id dotted ≡ true) ↔ ((dotted ≢ []) × All IsUserIdChar dotted)
is_valid_user_id_iff_example = is_valid_user_id_iff dotted

abbrev address : List ℕ
address = codes "[a.b@my-host.org"

is_valid_email_iff_example : (is_valid_email address ≡ true) ↔ (
    (local : List ℕ) × (domain : List ℕ) × (ending : List ℕ) × (address
      ≡ local ++ b'@' ∷ (domain ++ b'.' ∷ ending))
    × (local ≢ [])
    × All IsLocalChar local
    × (domain ≢ [])
    × All IsDomainChar domain
    × ((length ending ≡ 2) ⊎ (length ending ≡ 3))
    × All IsEndingChar ending)
is_valid_email_iff_example = is_valid_email_iff address

-- A bracket passes, a second domain does not.
email_bracket : is_valid_email address ≡ true
unfolding is_valid_email some_of one many optional two_or_three is_local_char is_domain_char
    is_ending_char
email_bracket = refl

email_two_domains : is_valid_email (codes "a@b.co.uk") ≡ false
unfolding is_valid_email some_of one many optional two_or_three is_local_char is_domain_char
    is_ending_char
email_two_domains = refl

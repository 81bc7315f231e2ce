-- ===== src/Validation.antt =====
-- common/utils/validation.cpp. Texts are lists of bytes; `std::regex_match` of the whole text with a
-- class repeated is a test of every byte and of the length.
pub mod UserId
pub mod Pattern
pub mod Email
mod Runs
use scalable_tcp_server.Base.{
  ℕ, Bool, true, false, ◌&&◌, ◌||◌, not, List, [], ◌∷◌, length, leb, ltb, ◌==◌, is_empty,
}
use scalable_tcp_server.Validation.Pattern.{Matcher, some_of, one, two_or_three}

-- `[a-zA-Z0-9_\.-]`
unfoldable pub is_user_id_char : ℕ → Bool
is_user_id_char c =
    (leb b'a' c && leb c b'z')
    || (leb b'A' c && leb c b'Z')
    || (leb b'0' c && leb c b'9')
    || (c == b'_')
    || (c == b'.')
    || (c == b'-')

unfoldable pub all_chars : (ℕ → Bool) → List ℕ → Bool
all_chars p [] = true
all_chars p (c ∷ cs) = p c && all_chars p cs

-- The pattern `^[a-zA-Z0-9_\.-]+$`
unfoldable pub is_valid_user_id : List ℕ → Bool
unfolding all_chars is_user_id_char
is_valid_user_id user_id = not (length user_id == 0) && all_chars is_user_id_char user_id

-- True for a text that is too short.
unfoldable pub is_valid_user_id_length : List ℕ → Bool
is_valid_user_id_length user_id = ltb (length user_id) 4

unfoldable pub is_valid_password_length : List ℕ → Bool
is_valid_password_length password = ltb (length password) 6

-- The classes of the pattern for e-mail addresses: `[a-zA-z0-9_\.-]`, with a range from A to z,
-- `[a-zA-Z0-9_-]` and `[a-zA-Z0-9]`.
unfoldable pub is_local_char : ℕ → Bool
is_local_char c =
    (leb b'a' c && leb c b'z')
    || (leb b'A' c && leb c b'z')
    || (leb b'0' c && leb c b'9')
    || (c == b'_')
    || (c == b'.')
    || (c == b'-')

unfoldable pub is_ending_char : ℕ → Bool
is_ending_char c =
    (leb b'a' c && leb c b'z') || (leb b'A' c && leb c b'Z') || (leb b'0' c && leb c b'9')

unfoldable pub is_domain_char : ℕ → Bool
unfolding is_ending_char
is_domain_char c = is_ending_char c || (c == b'_') || (c == b'-')

abbrev pub is_character : ℕ → ℕ → Bool
is_character d c = c == d

-- The pattern `^[a-zA-z0-9_\.-]+@[a-zA-Z0-9_-]+\.[a-zA-Z0-9]{2,3}$`
unfoldable pub is_valid_email : List ℕ → Bool
unfolding some_of one two_or_three is_local_char is_domain_char is_ending_char
is_valid_email = some_of is_local_char (
    one (is_character b'@')
      (some_of is_domain_char (one (is_character b'.') (two_or_three is_ending_char is_empty))))

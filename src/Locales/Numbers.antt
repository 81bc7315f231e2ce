-- ===== src/Locales/Numbers.antt =====
-- Reading the numbers that decimals spell.
use scalable_tcp_server.Base.{
  ℕ, ◌<◌, ◌^◌, ◌≡◌, ◌≢◌, refl, leb, ◌&&◌, is_empty, false, List, [], ◌∷◌, ◌++◌, All, some, arith,
}
use scalable_tcp_server.Base.Decimal.{
  IsDigit, decimal, value-decimal, decimal-IsDigit, decimal-ne-nil,
}
use scalable_tcp_server.Locales.{digit_prefix, from_chars}

-- What does not go on with a digit.
abbrev pub EndsDigits : List ℕ → Type 0
EndsDigits [] = Unit {0}
EndsDigits (c ∷ cs) = leb b'0' c && leb c b'9' ≡ false

digit_prefix-append :
    (ds rest : List ℕ) → All IsDigit ds → EndsDigits rest → digit_prefix (ds ++ rest) ≡ ds
unfolding digit_prefix
digit_prefix-append [] [] h ends = refl
digit_prefix-append [] (c ∷ rest) h ends = rw ends refl
digit_prefix-append (d ∷ ds) rest (hd, h) ends = ground (arith, digit_prefix-append ds rest h ends)

not_empty : (ds : List ℕ) → ds ≢ [] → is_empty ds ≡ false
not_empty [] h = absurd (h refl)
not_empty (d ∷ ds) h = refl

-- A `uint16_t` is read back from its decimal print, whatever that does not begin with a digit follows.
pub from_chars-decimal :
    (n : ℕ) (rest : List ℕ) → n < 2 ^ 16 → EndsDigits rest → from_chars (decimal n ++ rest) ≡ some n
unfolding from_chars
from_chars-decimal n rest small ends =
    rw
      (
        digit_prefix-append (decimal n) rest (decimal-IsDigit n) ends,
        not_empty (decimal n) (decimal-ne-nil n),
        value-decimal n,
      )
      (ground arith)

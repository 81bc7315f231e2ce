-- ===== src/Base/Texts.antt =====
-- Texts as lists of bytes.
use Prim.Native.Nat.{ℕ}
use Prim.Native.Char.{code}
use Prim.Native.String.{String}
use mathlib.Core.Path.{◌≡◌, refl}
use mathlib.Core.Logic.{◌≢◌}
use mathlib.Core.Bool.{Bool, true, false, ◌&&◌}
use mathlib.Core.Option.{Option, none, some}
use mathlib.Core.List.{List, [], ◌∷◌, ◌++◌}
use native.Mathlib.Omega.{arith}
use scalable_tcp_server.Base.Tests.{◌==◌, if◌then◌else◌}
use scalable_tcp_server.Base.Lists.{All}

-- The bytes of an ASCII text.
abbrev pub codes : String → List ℕ
codes String.[] = []
codes (String.◌∷◌ c s) = code c ∷ codes s

unfoldable pub same_text : List ℕ → List ℕ → Bool
same_text [] [] = true
same_text [] (b ∷ ys) = false
same_text (a ∷ xs) [] = false
same_text (a ∷ xs) (b ∷ ys) = a == b && same_text xs ys

pub same_text→eq : (xs ys : List ℕ) → same_text xs ys ≡ true → xs ≡ ys
unfolding same_text
same_text→eq [] [] h = refl
same_text→eq [] (b ∷ ys) h = cc
same_text→eq (a ∷ xs) [] h = cc
same_text→eq (a ∷ xs) (b ∷ ys) h = ground (arith, same_text→eq xs ys)

pub same_text_refl : (xs : List ℕ) → same_text xs xs ≡ true
unfolding same_text
same_text_refl [] = refl
same_text_refl (a ∷ xs) = ground (arith, same_text_refl xs)

-- What stands before the last `c` and what stands behind it.
unfoldable pub split_last : ℕ → List ℕ → Option (List ℕ × List ℕ)
split_last c [] = none
split_last c (x ∷ xs) = elim (split_last c xs) [
  | none ↦ if x == c then some ([], xs) else none
  | some (before, after) ↦ some (x ∷ before, after)
]

pub split_last-none : (c : ℕ) (xs : List ℕ) → All (λ x. x ≢ c) xs → split_last c xs ≡ none
unfolding split_last
split_last-none c [] h = refl
split_last-none c (x ∷ xs) (hx, h) = ground (arith, split_last-none c xs h)

pub split_last-some :
    (c : ℕ) (before after : List ℕ)
    → All (λ x. x ≢ c) after
    → split_last c (before ++ c ∷ after) ≡ some (before, after)
unfolding split_last
split_last-some c [] after h = ground (arith, split_last-none c after h)
split_last-some c (x ∷ before) after h = ground (arith, split_last-some c before after h)

-- Texts that go on behind the same separator are the same before and behind its first occurrence.
pub split_first_eq :
    (c : ℕ) (xs ys xs' ys' : List ℕ)
    → All (λ x. x ≢ c) xs
    → All (λ x. x ≢ c) xs'
    → xs ++ c ∷ ys ≡ xs' ++ c ∷ ys'
    → (xs ≡ xs') × (ys ≡ ys')
split_first_eq c [] ys [] ys' h h' e = (refl, cc)
split_first_eq c [] ys (a' ∷ xs') ys' h h' e = ground (arith, h'.0)
split_first_eq c (a ∷ xs) ys [] ys' h h' e = ground (arith, h.0)
split_first_eq c (a ∷ xs) ys (a' ∷ xs') ys' h h' e =
    let (rest, same) = split_first_eq c xs ys xs' ys' h.1 h'.1 (cc) in (cc, same)

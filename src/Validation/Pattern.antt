-- ===== src/Validation/Pattern.antt =====
-- The parts of the patterns of common/utils/validation.cpp, in the style of a matcher that is given what
-- has to match behind it; `std::regex_match` tries every way to match the whole text.
use scalable_tcp_server.Base.{
  ℕ, ◌≡◌, ◌≢◌, ◌⊎◌, ◌↔◌, inl, inr, refl, sym, ap, true, false, Bool, ◌&&◌, ◌||◌, is_empty, List, [],
  ◌∷◌, ◌++◌, length, All, arith,
}
use mathlib.Core.Path.{subst}

abbrev pub Matcher : Type 0
Matcher = List ℕ → Bool

-- One byte of a class.
unfoldable pub one : (class : ℕ → Bool) → Matcher → Matcher
one class next [] = false
one class next (c ∷ cs) = class c && next cs

-- A class with `*`.
unfoldable pub many : (class : ℕ → Bool) → Matcher → Matcher
many class next [] = next []
many class next (c ∷ cs) = next (c ∷ cs) || (class c && many class next cs)

-- A class with `+`.
unfoldable pub some_of : (class : ℕ → Bool) → Matcher → Matcher
unfolding one many
some_of class next = one class (many class next)

-- A class with `?`.
unfoldable pub optional : (class : ℕ → Bool) → Matcher → Matcher
unfolding one
optional class next cs = next cs || one class next cs

-- A class with `{2,3}`.
unfoldable pub two_or_three : (class : ℕ → Bool) → Matcher → Matcher
unfolding one optional
two_or_three class next = one class (one class (optional class next))

-- The bytes are of the class.
abbrev pub Are : (ℕ → Bool) → List ℕ → Type 0
Are class cs = All (λ c. class c ≡ true) cs

-- A text in front of which there are bytes of the class, and behind them what matches next.
abbrev Divided : (ℕ → Bool) → Matcher → List ℕ → Type 0
Divided class next cs =
    (front : List ℕ) × (rest : List ℕ) × (cs ≡ front ++ rest) × Are class front × (next rest ≡ true)

module _ (class : ℕ → Bool) (next : Matcher) where
  many-cons :
      (c : ℕ) (cs : List ℕ)
      → many class next (c ∷ cs) ≡ true
      → (next (c ∷ cs) ≡ true) ⊎ ((class c ≡ true) × (many class next cs ≡ true))
  unfolding many
  many-cons c cs h = ground arith

  many-Divided : (cs : List ℕ) → many class next cs ≡ true → Divided class next cs
  unfolding many
  many-Divided [] h = ([], [], refl, tt, h)
  many-Divided (c ∷ cs) h = elim (many-cons c cs h) [
    | inl now ↦ ([], c ∷ cs, refl, tt, now)
    | inr (hc, later) ↦
        let (front, rest, e, hf, hr) = many-Divided cs later in
        (c ∷ front, rest, ap (λ xs. c ∷ xs) e, (hc, hf), hr)
  ]

  many-append :
      (front rest : List ℕ)
      → Are class front
      → next rest ≡ true
      → many class next (front ++ rest) ≡ true
  unfolding many
  many-append [] [] h hr = hr
  many-append [] (c ∷ rest) h hr = rw hr refl
  many-append (c ∷ front) rest (hc, h) hr = ground (arith, many-append front rest h hr)

  pub some_of_iff :
      (cs : List ℕ)
      → (some_of class next cs ≡ true) ↔ (
          (front : List ℕ) × (rest : List ℕ) × (cs ≡ front ++ rest)
          × (front ≢ [])
          × Are class front
          × (next rest ≡ true))
  unfolding some_of one
  some_of_iff [] = ((λ h. cc), λ (front, rest, e, ne, _, _). absurd (ne (no_front front rest e)))
    where
      no_front : (front rest : List ℕ) → [] ≡ front ++ rest → front ≡ []
      no_front [] rest e = refl
      no_front (c ∷ front) rest e = cc
  some_of_iff (c ∷ cs) = (
    (λ h.
        let (front, rest, e, hf, hr) = many-Divided cs (ground arith) in
        (c ∷ front, rest, ap (λ xs. c ∷ xs) e, (λ n. cc), (ground arith, hf), hr)),
    λ (front, rest, e, ne, hf, hr). back front rest e ne hf hr,
  )
    where
      back :
          (front rest : List ℕ)
          → c ∷ cs ≡ front ++ rest
          → front ≢ []
          → Are class front
          → next rest ≡ true
          → class c && many class next cs ≡ true
      back [] rest e ne hf hr = absurd (ne refl)
      back (d ∷ front) rest e ne (hd, hf) hr =
          subst (λ xs. some_of class next xs ≡ true) (sym e)
            (rw (hd, many-append front rest hf hr) refl)

  pub one_iff :
      (cs : List ℕ)
      → (one class next cs ≡ true)
        ↔ ((c : ℕ) × (rest : List ℕ) × (cs ≡ c ∷ rest) × (class c ≡ true) × (next rest ≡ true))
  unfolding one
  one_iff [] = ((λ h. cc), λ (c, rest, e, _, _). cc)
  one_iff (c ∷ cs) = (
    (λ h. (c, cs, refl, ground arith, ground arith)),
    λ (d, rest, e, hc, hr). subst (λ xs. one class next xs ≡ true) (sym e) (rw (hc, hr) refl),
  )

pub two_or_three_iff :
    (class : ℕ → Bool) (cs : List ℕ)
    → (two_or_three class is_empty cs ≡ true) ↔ (((length cs ≡ 2) ⊎ (length cs ≡ 3)) × Are class cs)
unfolding two_or_three one optional
two_or_three_iff class [] = ground arith
two_or_three_iff class (a ∷ []) = ground arith
two_or_three_iff class (a ∷ b ∷ []) = ground arith
two_or_three_iff class (a ∷ b ∷ c ∷ []) = ground arith
two_or_three_iff class (a ∷ b ∷ c ∷ d ∷ cs) = ground arith

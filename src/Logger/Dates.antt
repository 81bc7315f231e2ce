-- ===== src/Logger/Dates.antt =====
-- The dates in the names of the files.
use scalable_tcp_server.Base.{
  ℕ, ◌+◌, ◌≡◌, ◌≢◌, ◌↔◌, refl, List, [], ◌∷◌, ◌++◌, All, split_first_eq, arith,
}
use mathlib.Core.List.{append_cancel_left, append_cancel_right}
use scalable_tcp_server.Base.Decimal.{IsDigit, decimal, decimal-IsDigit, decimal_injective}
use scalable_tcp_server.Logger.{Tm, LogPathInfo, dash, get_date, day_file}

no_dash : (cs : List ℕ) → All IsDigit cs → All (λ c. c ≢ dash) cs
no_dash [] h = tt
no_dash (c ∷ cs) (hc, h) = ((λ e. omega arith), no_dash cs h)

decimal-no_dash : (n : ℕ) → All (λ c. c ≢ dash) (decimal n)
decimal-no_dash n = no_dash (decimal n) (decimal-IsDigit n)

abbrev pub SameDay : Tm → Tm → Type 0
SameDay s t = (s.tm_year ≡ t.tm_year) × (s.tm_mon ≡ t.tm_mon) × (s.tm_mday ≡ t.tm_mday)

get_date_injective : (s t : Tm) → get_date s ≡ get_date t → SameDay s t
unfolding get_date
get_date_injective s t e =
    let (year, rest) =
      split_first_eq dash (decimal (s.tm_year + 1900)) _ (decimal (t.tm_year + 1900)) _
        (decimal-no_dash _) (decimal-no_dash _) e in
    let (month, day) =
      split_first_eq dash (decimal (s.tm_mon + 1)) _ (decimal (t.tm_mon + 1)) _ (decimal-no_dash _)
        (decimal-no_dash _) rest in
    let y = decimal_injective (s.tm_year + 1900) (t.tm_year + 1900) year in
    let m = decimal_injective (s.tm_mon + 1) (t.tm_mon + 1) month in
    (omega arith, omega arith, decimal_injective s.tm_mday t.tm_mday day)

cons_tail : {c d : ℕ} {xs ys : List ℕ} → c ∷ xs ≡ d ∷ ys → xs ≡ ys
cons_tail e = cc

-- Two times have the same file exactly if they are of the same day.
day_file-eq_iff :
    (p : LogPathInfo) (s t : Tm) → (day_file p (get_date s) ≡ day_file p (get_date t)) ↔ SameDay s t
day_file-eq_iff p s t = (
  (λ e.
      let rest = append_cancel_left (p.path ++ p.name) _ _ e in
      get_date_injective s t
        (append_cancel_right (get_date s) (get_date t) p.extention (cons_tail rest))),
  λ (year, month, day). unfold get_date in rw (year, month, day) refl,
)

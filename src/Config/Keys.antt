-- ===== src/Config/Keys.antt =====
-- How keys are looked up.
use scalable_tcp_server.Base.{
  ℕ, ◌≡◌, ◌≢◌, ◌⊎◌, inl, inr, refl, ap, List, [], ◌∷◌, ◌++◌, All, none, some, done, arith,
}
use native.Mathlib.Decide.{ℕ_discrete}
use scalable_tcp_server.Config.{Json, Kind, dot, split_key}

-- A key has no dot, or a first one.
pub split_key-cases :
    (key : List ℕ)
    → ((split_key key ≡ none) × All (λ c. c ≢ dot) key)
      ⊎ ((parent : List ℕ) × (child : List ℕ) × (split_key key ≡ some (parent, child))
          × (key ≡ parent ++ dot ∷ child)
          × All (λ c. c ≢ dot) parent)
unfolding split_key
split_key-cases [] = inl (refl, tt)
split_key-cases (c ∷ cs) = elim (ℕ_discrete c dot) [
  | yes e ↦ inr ([], cs, rw e refl, rw e refl, tt)
  | no e ↦ elim (split_key-cases cs) [
    | inl (nothing, plain) ↦ inl (ground (arith, nothing), (e, plain))
    | inr (parent, child, found, same, plain) ↦
        inr (c ∷ parent, child, ground (arith, found), ap (λ ds. c ∷ ds) same, (e, plain))
  ]
]

module _ (j : Json) where
  -- What an object has under a name, null if nothing.
  pub data HasMember (object : j.Object) (name : List ℕ) : j.Value → Type 0 where
    present : {v : j.Value} → j.find object name ≡ some v → HasMember object name v
    missing : j.find object name ≡ none → HasMember object name j.null_value

  -- The value that a key stands for.
  pub data ValueAt (root : j.Object) : List ℕ → j.Value → Type 0 where
    plain :
        {key : List ℕ} {v : j.Value}
        → All (λ c. c ≢ dot) key
        → HasMember root key v
        → ValueAt root key v
    nested :
        {key : List ℕ} {v : j.Value} (name child : List ℕ) (parent : j.Value) (section : j.Object)
        → key ≡ name ++ dot ∷ child
        → All (λ c. c ≢ dot) name
        → j.find root name ≡ some parent
        → j.kind parent ≡ Kind.object
        → j.as_object parent ≡ done section
        → HasMember section child v
        → ValueAt root key v
    no_section :
        {key : List ℕ} (name child : List ℕ)
        → key ≡ name ++ dot ∷ child
        → All (λ c. c ≢ dot) name
        → j.find root name ≡ none
        → ValueAt root key j.null_value
    no_object :
        {key : List ℕ} (name child : List ℕ) (parent : j.Value)
        → key ≡ name ++ dot ∷ child
        → All (λ c. c ≢ dot) name
        → j.find root name ≡ some parent
        → j.kind parent ≢ Kind.object
        → ValueAt root key j.null_value

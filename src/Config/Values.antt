-- ===== src/Config/Values.antt =====
-- What the getters of src/config/config.cpp return, said of the values that stand under the keys.
use scalable_tcp_server.Base.{ℕ, ◌≡◌, ◌≢◌, ◌⊎◌, inl, inr, refl, Bool, false, List, [], done}
use scalable_tcp_server.Word.{u32}
use scalable_tcp_server.Config.{Json, Kind, is_integer, get_string, get_int, get_bool}
use scalable_tcp_server.Config.Keys.{ValueAt}
use scalable_tcp_server.Config.Getters.{IsJson, getters_lem}

pub Kind-discrete : Discrete Kind
Kind-discrete = hlevel

pub kind_cases : (k : Kind) → (k ≡ Kind.uint64) ⊎ ((is_integer k ≡ false) ⊎ (k ≡ Kind.int64))
kind_cases Kind.null = inr (inl refl)
kind_cases Kind.bool = inr (inl refl)
kind_cases Kind.int64 = inr (inr refl)
kind_cases Kind.uint64 = inl refl
kind_cases Kind.double = inr (inl refl)
kind_cases Kind.string = inr (inl refl)
kind_cases Kind.array = inr (inl refl)
kind_cases Kind.object = inr (inl refl)

module _ (j : Json) (root : j.Object) where
  -- The text under a key, or the default.
  abbrev pub TextAt : (key default_value text : List ℕ) → Type 0
  TextAt key default_value text =
      (value : j.Value) × ValueAt j root key value
      × (((j.kind value ≢ Kind.string) × (text ≡ default_value))
          ⊎ ((j.kind value ≡ Kind.string) × (j.as_string value ≡ done text)))

  -- The low 32 bits of the signed integer under a key, or the default.
  abbrev pub IntAt : (key : List ℕ) (default_value n : ℕ) → Type 0
  IntAt key default_value n =
      (value : j.Value) × ValueAt j root key value
      × (((is_integer (j.kind value) ≡ false) × (n ≡ default_value))
          ⊎ ((j.kind value ≡ Kind.int64) × ((i : ℕ) × (j.as_int64 value ≡ done i) × (n ≡ u32 i))))

  -- A boolean stands under a key.
  abbrev pub HasBool : List ℕ → Type 0
  HasBool key = (value : j.Value) × ValueAt j root key value × (j.kind value ≡ Kind.bool)

  module _ (laws : IsJson j) where
    pub get_string-TextAt :
        (key default_value text : List ℕ)
        → get_string j root key default_value ≡ done text
        → TextAt key default_value text
    get_string-TextAt key default_value text e =
        let (value, _, stands, is, other, _, _, _, _, _) =
          getters_lem j laws root key default_value 0 false in
        elim (Kind-discrete (j.kind value) Kind.string) [
          | yes k ↦
              let (t, et, eq) = is k in
              let same : t ≡ text = cc in (value, stands, inr (k, rw same at et))
          | no k ↦ let eq = other k in (value, stands, inl (k, cc))
        ]

    pub get_int-IntAt :
        (key : List ℕ) (default_value n : ℕ)
        → get_int j root key default_value ≡ done n
        → IntAt key default_value n
    get_int-IntAt key default_value n e =
        let (value, _, stands, _, _, other, signed, unsigned, _, _) =
          getters_lem j laws root key [] default_value false in
        elim (kind_cases (j.kind value)) [
          | inl k ↦ let eq = unsigned k in cc
          | inr (inl k) ↦ let eq = other k in (value, stands, inl (k, cc))
          | inr (inr k) ↦ let (i, ei, eq) = signed k in (value, stands, inr (k, (i, ei, cc)))
        ]

    -- `get_bool` returns nothing but the default.
    pub get_bool-HasBool :
        (key : List ℕ) (default_value b : Bool)
        → get_bool j root key default_value ≡ done b
        → HasBool key × (b ≡ default_value)
    get_bool-HasBool key default_value b e =
        let (value, _, stands, _, _, _, _, _, is, other) =
          getters_lem j laws root key [] 0 default_value in
        elim (Kind-discrete (j.kind value) Kind.bool) [
          | yes k ↦ let eq = is k in ((value, stands, k), cc)
          | no k ↦ let eq = other k in cc
        ]

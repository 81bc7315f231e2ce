-- ===== src/Config/Getters.antt =====
-- What the getters return on every kind of value, and what loading does.
use scalable_tcp_server.Base.{
  ℕ, ◌≡◌, ◌≢◌, ◌⊎◌, refl, ap, sym, ◌∙◌, inl, inr, Bool, true, false, ◌||◌, not, List, ◌∷◌, ◌++◌,
  All, Option, none, some, done, throws, system_error, if◌then◌else◌,
}
use scalable_tcp_server.Word.{u32}
use scalable_tcp_server.Config.{
  Kind, Json, dot, is_null, is_object, is_string, is_integer, is_bool, value_or_null, find_child,
  find_split, find_key, get_string, get_int, get_bool, load, load_parsed,
}
use scalable_tcp_server.Config.Keys.{HasMember, ValueAt, split_key-cases}

-- What Boost.JSON documents of the operations that the source uses: `as_...` on a value of another
-- kind throws.
pub record IsJson (j : Json) : Type 0 where
  pub null_kind : j.kind j.null_value ≡ Kind.null
  pub object_done :
      (v : j.Value) → j.kind v ≡ Kind.object → (o : j.Object) × (j.as_object v ≡ done o)
  pub string_done : (v : j.Value) → j.kind v ≡ Kind.string → (t : List ℕ) × (j.as_string v ≡ done t)
  pub int64_done : (v : j.Value) → j.kind v ≡ Kind.int64 → (i : ℕ) × (j.as_int64 v ≡ done i)
  pub int64_throws : (v : j.Value) → j.kind v ≢ Kind.int64 → j.as_int64 v ≡ throws system_error
  pub bool_throws : (v : j.Value) → j.kind v ≢ Kind.bool → j.as_bool v ≡ throws system_error

not_bool : (k : Kind) → k ≢ Kind.bool → (is_null k || not (is_bool k)) ≡ true
not_bool Kind.bool h = absurd (h refl)
not_bool Kind.null h = refl
not_bool Kind.int64 h = refl
not_bool Kind.uint64 h = refl
not_bool Kind.double h = refl
not_bool Kind.string h = refl
not_bool Kind.array h = refl
not_bool Kind.object h = refl

not_string : (k : Kind) → k ≢ Kind.string → (is_null k || not (is_string k)) ≡ true
not_string Kind.string h = absurd (h refl)
not_string Kind.null h = refl
not_string Kind.bool h = refl
not_string Kind.int64 h = refl
not_string Kind.uint64 h = refl
not_string Kind.double h = refl
not_string Kind.array h = refl
not_string Kind.object h = refl

if_same : {A : Type 0} (b : Bool) (a : A) → (if b then a else a) ≡ a
if_same true a = refl
if_same false a = refl

Option-cases : {A : Type 0} (o : Option A) → (o ≡ none) ⊎ ((a : A) × (o ≡ some a))
Option-cases none = inl refl
Option-cases (some a) = inr (a, refl)

module _ (j : Json) (laws : IsJson j) (root : j.Object) where
  object_kind : (k : Kind) → (k ≡ Kind.object) ⊎ (is_object k ≡ false)
  object_kind Kind.object = inl refl
  object_kind Kind.null = inr refl
  object_kind Kind.bool = inr refl
  object_kind Kind.int64 = inr refl
  object_kind Kind.uint64 = inr refl
  object_kind Kind.double = inr refl
  object_kind Kind.string = inr refl
  object_kind Kind.array = inr refl

  member-HasMember :
      (object : j.Object) (name : List ℕ) (found : Option j.Value)
      → j.find object name ≡ found
      → HasMember j object name (value_or_null j found)
  member-HasMember object name none e = HasMember.missing e
  member-HasMember object name (some v) e = HasMember.present e

  find_child-done :
      (key name child : List ℕ)
      → key ≡ name ++ dot ∷ child
      → All (λ c. c ≢ dot) name
      → (found : Option j.Value) → j.find root name ≡ found
      → (value : j.Value) × (find_child j found child ≡ done value) × ValueAt j root key value
  unfolding find_child
  find_child-done key name child same dotless none e =
      (j.null_value, refl, ValueAt.no_section name child same dotless e)
  find_child-done key name child same dotless (some parent) e = elim (object_kind (j.kind parent)) [
    | inl is ↦
        let (section, es) = laws.object_done parent is in
        (
          value_or_null j (j.find section child),
          rw (is, es) refl,
          ValueAt.nested name child parent section same dotless e is es
              (member-HasMember section child (j.find section child) refl),
        )
    | inr other ↦ (
      j.null_value,
      rw other refl,
      ValueAt.no_object name child parent same dotless e (λ is. not_object parent is other),
    )
  ]
    where
      not_object : (v : j.Value) → j.kind v ≡ Kind.object → is_object (j.kind v) ≡ false → ⊥
      not_object v is other = let closed : is_object Kind.object ≡ false = rw is at other in cc

  -- Looking up a key finds its value.
  pub find_key-done :
      (key : List ℕ)
      → (value : j.Value) × (find_key j root key ≡ done value) × ValueAt j root key value
  unfolding find_key find_split
  find_key-done key = elim (split_key-cases key) [
    | inl (whole, dotless) ↦ (
      value_or_null j (j.find root key),
      rw whole refl,
      ValueAt.plain dotless (member-HasMember root key (j.find root key) refl),
    )
    | inr (name, child, parts, same, dotless) ↦
        let (value, e, stands) =
          find_child-done key name child same dotless (j.find root name) refl in
        (value, rw parts e, stands)
  ]

  -- With Boost.JSON as documented, the value of a key is: of a key without a dot, the root's value
  -- of this name; of another key, the value that an object at the root of the name before its first
  -- dot has of the name behind this dot; and null if there is none. Of this value `get_string`
  -- returns a text, and else the default; `get_int` returns the low 32 bits of a signed integer,
  -- throws for an unsigned one, and else returns the default; `get_bool` returns the default for a
  -- boolean, and else throws.
  pub getters_lem :
      (key text : List ℕ) (number : ℕ) (flag : Bool)
      → (value : j.Value) × (find_key j root key ≡ done value)
        × ValueAt j root key value
        × (j.kind value ≡ Kind.string
            → (t : List ℕ) × (j.as_string value ≡ done t) × (get_string j root key text ≡ done t))
        × (j.kind value ≢ Kind.string → get_string j root key text ≡ done text)
        × (is_integer (j.kind value) ≡ false → get_int j root key number ≡ done number)
        × (j.kind value ≡ Kind.int64
            → (i : ℕ) × (j.as_int64 value ≡ done i) × (get_int j root key number ≡ done (u32 i)))
        × (j.kind value ≡ Kind.uint64 → get_int j root key number ≡ throws system_error)
        × (j.kind value ≡ Kind.bool → get_bool j root key flag ≡ done flag)
        × (j.kind value ≢ Kind.bool → get_bool j root key flag ≡ throws system_error)
  unfolding get_string get_int get_bool
  getters_lem key text number flag =
      let (value, e, stands) = find_key-done key in
      (
        value,
        e,
        stands,
        (λ is. let (t, et) = laws.string_done value is in (t, et, rw (e, is, et) refl)),
        (λ other. rw (e, not_string (j.kind value) other) refl),
        (λ other. rw (e, other) (if_same (is_null (j.kind value)) (done number))),
        (λ is. let (i, ei) = laws.int64_done value is in (i, ei, rw (e, is, ei) refl)),
        (λ is. rw (e, is, laws.int64_throws value (λ k. cc)) refl),
        (λ is. rw (e, is) refl),
        λ other. rw (e, not_bool (j.kind value) other) (laws.bool_throws value other),
      )

  -- With Boost.JSON as documented, loading returns: the file can be read, its text parses to an object,
  -- and this object is the configuration; or there is no such object, and loading fails and leaves the
  -- configuration as it was.
  load-keeps :
      (parse : List ℕ → Option j.Value) (file : Option (List ℕ))
      → (((text : List ℕ) (value : j.Value)
            → file ≡ some text
            → parse text ≡ some value
            → j.kind value ≢ Kind.object)
          × (load j parse file root ≡ done (false, root)))
        ⊎ ((text : List ℕ) × (value : j.Value) × (object : j.Object) × (file ≡ some text)
            × (parse text ≡ some value)
            × (j.as_object value ≡ done object)
            × (load j parse file root ≡ done (true, object)))
  unfolding load load_parsed
  load-keeps parse none = inl ((λ text value e. cc), refl)
  load-keeps parse (some text) = elim (Option-cases (parse text)) [
    | inl failed ↦ inl ((λ t value e f k. cc), rw failed refl)
    | inr (value, parsed) ↦ elim (object_kind (j.kind value)) [
      | inl is ↦
          let (object, eo) = laws.object_done value is in
          inr (text, value, object, refl, parsed, eo, rw (parsed, is, eo) refl)
      | inr other ↦
          inl ((λ t v e f k. not_object text t value v parsed other e f k), rw (parsed, other) refl)
    ]
  ]
    where
      not_object :
          (text t : List ℕ) (value v : j.Value)
          → parse text ≡ some value
          → is_object (j.kind value) ≡ false
          → Option.some text ≡ some t
          → parse t ≡ some v
          → j.kind v ≡ Kind.object
          → ⊥
      not_object text t value v parsed other e f k =
          let same : value ≡ v = cc in
          let closed : is_object Kind.object ≡ false =
            ap is_object (sym (ap j.kind same ∙ k)) ∙ other in
          cc

-- ===== src/Config.antt =====
-- src/config/config.cpp: the configuration, a JSON object with sections one level deep. A key is a list
-- of bytes; Boost.JSON and the file are parameters.
pub mod Keys
pub mod Loading
pub mod Getters
pub mod Values
mod Runs
use scalable_tcp_server.Base.{
  ℕ, Bool, true, false, ◌||◌, not, ◌==◌, if◌then◌else◌, List, [], ◌∷◌, Option, none, some, Outcome,
  done, throws, Exception, codes, ◌++◌, ◌>>=◌,
}
use scalable_tcp_server.Word.{u32}
use scalable_tcp_server.Files.{Source, read_file}

-- The kinds of a `json::value`.
pub data Kind : Type 0 where
  null bool int64 uint64 double string array object : Kind

-- What the source uses of Boost.JSON. An `int64_t` is the number of its 64 bits.
pub record Json : Type 1 where
  pub Value : Type 0
  pub Object : Type 0
  pub null_value : Value
  pub kind : Value → Kind
  pub find : Object → List ℕ → Option Value
  pub entries : Object → List (List ℕ × Value)
  pub as_object : Value → Outcome Object
  pub as_string : Value → Outcome (List ℕ)
  pub as_int64 : Value → Outcome ℕ
  pub as_bool : Value → Outcome Bool

abbrev pub is_null : Kind → Bool
is_null Kind.null = true
is_null _ = false

abbrev pub is_object : Kind → Bool
is_object Kind.object = true
is_object _ = false

abbrev pub is_string : Kind → Bool
is_string Kind.string = true
is_string _ = false

abbrev pub is_integer : Kind → Bool
is_integer Kind.int64 = true
is_integer Kind.uint64 = true
is_integer _ = false

abbrev pub is_bool : Kind → Bool
is_bool Kind.bool = true
is_bool _ = false

abbrev pub dot : ℕ
dot = b'.'

-- `key.find('.')` with both `substr`: what stands before the first dot and what stands behind it.
unfoldable pub split_key : List ℕ → Option (List ℕ × List ℕ)
split_key [] = none
split_key (c ∷ cs) =
    let rest = split_key cs in
    if c == dot
    then some ([], cs)
    else elim rest [ none ↦ none | some (parent, child) ↦ some (c ∷ parent, child) ]

module _ (j : Json) where
  abbrev pub value_or_null : Option j.Value → j.Value
  value_or_null none = j.null_value
  value_or_null (some v) = v

  -- A key with a dot, from `root_.find(parenfKey)` on.
  unfoldable pub find_child : Option j.Value → List ℕ → Outcome j.Value
  find_child none child = done j.null_value
  find_child (some parent) child =
      if not (is_object (j.kind parent))
      then done j.null_value
      else (j.as_object parent >>= λ section. done (value_or_null (j.find section child)))

  unfoldable pub find_split : j.Object → List ℕ → Option (List ℕ × List ℕ) → Outcome j.Value
  unfolding find_child
  find_split root key none = done (value_or_null (j.find root key))
  find_split root key (some (parent, child)) = find_child (j.find root parent) child

  unfoldable pub find_key : j.Object → List ℕ → Outcome j.Value
  unfolding find_split split_key
  find_key root key = find_split root key (split_key key)

  unfoldable pub get : j.Object → List ℕ → Outcome j.Value
  get root key = find_key root key >>= λ value.
      if is_null (j.kind value)
      then throws (Exception.string (codes "Config key not found: " ++ key))
      else done value

  unfoldable pub has : j.Object → List ℕ → Outcome Bool
  has root key = find_key root key >>= λ value. done (not (is_null (j.kind value)))

  unfoldable pub get_string : j.Object → List ℕ → List ℕ → Outcome (List ℕ)
  get_string root key default_value = find_key root key >>= λ value.
      if is_null (j.kind value) || not (is_string (j.kind value))
      then done default_value
      else j.as_string value

  -- An `int` is the number of its 32 bits, and the cast of an `int64_t` keeps the low ones.
  unfoldable pub get_int : j.Object → List ℕ → ℕ → Outcome ℕ
  get_int root key default_value = find_key root key >>= λ value.
      if is_null (j.kind value)
      then done default_value
      else if is_integer (j.kind value)
      then (j.as_int64 value >>= λ i. done (u32 i))
      else done default_value

  unfoldable pub get_bool : j.Object → List ℕ → Bool → Outcome Bool
  get_bool root key default_value = find_key root key >>= λ value.
      if is_null (j.kind value) || not (is_bool (j.kind value))
      then j.as_bool value
      else done default_value

  -- `load` from the test of what `json::parse` made of the text: whether it succeeds, and `root_`.
  unfoldable pub load_parsed : Option j.Value → j.Object → Outcome (Bool × j.Object)
  load_parsed none root = done (false, root)
  load_parsed (some value) root =
      if not (is_object (j.kind value))
      then done (false, root)
      else (j.as_object value >>= λ object. done (true, object))

  -- `load`, of what the file holds if it can be read.
  unfoldable pub load :
      (parse : List ℕ → Option j.Value) → Option (List ℕ) → j.Object → Outcome (Bool × j.Object)
  unfolding load_parsed
  load parse none root = done (false, root)
  load parse (some text) root = load_parsed (parse text) root

  -- `load` whole: the file, if it could be opened, is read first.
  unfoldable pub load_file :
      (parse : List ℕ → Option j.Value) → Option Source → j.Object → Outcome (Bool × j.Object)
  unfolding load
  load_file parse none root = done (false, root)
  load_file parse (some file) root = read_file file >>= λ text. load parse text root

  unfoldable pub reload :
      (parse : List ℕ → Option j.Value) → Option Source → j.Object → Outcome (Bool × j.Object)
  unfolding load_file
  reload = load_file

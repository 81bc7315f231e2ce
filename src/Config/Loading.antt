-- ===== src/Config/Loading.antt =====
-- Loading from a file is loading of the text that all of its blocks make.
use scalable_tcp_server.Base.{
  ℕ, ◌≡◌, refl, ap, sym, inl, inr, Bool, true, false, Bool-cases, List, if◌then◌else◌, Option, none,
  some, Outcome, done, ◌∙◌,
}
use scalable_tcp_server.Files.{Source}
use scalable_tcp_server.Files.Reading.{read_file-eq}
use scalable_tcp_server.Config.{Json, Kind, is_object, load, load_parsed, load_file}
use scalable_tcp_server.Config.Getters.{IsJson}

-- What can be read of a file that was opened or not.
abbrev pub readable : Option Source → Option (List ℕ)
readable none = none
readable (some file) = if file.fails then none else some file.bytes

module _ (j : Json) where
  pub load_file-eq :
      (parse : List ℕ → Option j.Value) (file : Option Source) (root : j.Object)
      → load_file j parse file root ≡ load j parse (readable file) root
  unfolding load_file load
  load_file-eq parse none root = refl
  load_file-eq parse (some file) root = rw (read_file-eq file) refl

is_object-eq : (k : Kind) → is_object k ≡ true → k ≡ Kind.object
is_object-eq Kind.object e = refl
is_object-eq Kind.null e = cc
is_object-eq Kind.bool e = cc
is_object-eq Kind.int64 e = cc
is_object-eq Kind.uint64 e = cc
is_object-eq Kind.double e = cc
is_object-eq Kind.string e = cc
is_object-eq Kind.array e = cc

abbrev pub or_else {ℓ} : {A : Type ℓ} → A → Option A → A
or_else a none = a
or_else a (some b) = b

abbrev pub result {ℓ} : {A : Type ℓ} → Outcome A → Option A
result (done a) = some a
result _ = none

module _ (j : Json) (parse : List ℕ → Option j.Value) where
  -- The object that a text is parsed to, if it is one.
  abbrev pub object_of : Option j.Value → Option j.Object
  object_of none = none
  object_of (some value) = if is_object (j.kind value) then result (j.as_object value) else none

  abbrev pub object_read : Option (List ℕ) → Option j.Object
  object_read none = none
  object_read (some text) = object_of (parse text)

  -- The object that a file holds, if it can be opened and read.
  abbrev pub object_in : Option Source → Option j.Object
  object_in file = object_read (readable file)

  module _ (laws : IsJson j) (root : j.Object) where
    load_parsed-object :
        (value : Option j.Value)
        → (ok : Bool) × (load_parsed j value root ≡ done (ok, or_else root (object_of value)))
    unfolding load_parsed
    load_parsed-object none = (false, refl)
    load_parsed-object (some value) = elim (Bool-cases (is_object (j.kind value))) [
      | inl is ↦
          let (object, e) = laws.object_done value (is_object-eq (j.kind value) is) in
          (true, rw (is, e) refl)
      | inr other ↦ (false, rw other refl)
    ]

    load-object :
        (text : Option (List ℕ))
        → (ok : Bool) × (load j parse text root ≡ done (ok, or_else root (object_read text)))
    unfolding load
    load-object none = (false, refl)
    load-object (some text) = load_parsed-object (parse text)

    -- Loading returns, and the configuration is the object in the file, or the one from before.
    pub load_file-object :
        (file : Option Source)
        → (ok : Bool) × (load_file j parse file root ≡ done (ok, or_else root (object_in file)))
    load_file-object file =
        let (ok, e) = load-object (readable file) in (ok, load_file-eq j parse file root ∙ e)

    load_parsed-loaded :
        (value : Option j.Value) (object : j.Object)
        → load_parsed j value root ≡ done (true, object)
        → object_of value ≡ some object
    unfolding load_parsed
    load_parsed-loaded none object e = cc
    load_parsed-loaded (some value) object e = elim (Bool-cases (is_object (j.kind value))) [
      | inl is ↦
          let (made, em) = laws.object_done value (is_object-eq (j.kind value) is) in
          rw (is, em) (ap some (same_object made object (rw (is, em) at e)))
      | inr other ↦ absurd (no_object object (rw other at e))
    ]
      where
        same_object :
            (a b : j.Object)
            → ◌≡◌ {A = Outcome (Bool × j.Object)} (done (true, a)) (done (true, b))
            → a ≡ b
        same_object a b e = cc

        no_object :
            (b : j.Object)
            → ◌≡◌ {A = Outcome (Bool × j.Object)} (done (false, root)) (done (true, b))
            → ⊥
        no_object b e = cc

    load-loaded :
        (text : Option (List ℕ)) (object : j.Object)
        → load j parse text root ≡ done (true, object)
        → object_read text ≡ some object
    unfolding load
    load-loaded none object e = cc
    load-loaded (some text) object e = load_parsed-loaded (parse text) object e

    -- Loading that succeeds gives the object in the file.
    pub load_file-loaded :
        (file : Option Source) (object : j.Object)
        → load_file j parse file root ≡ done (true, object)
        → object_in file ≡ some object
    load_file-loaded file object e =
        load-loaded (readable file) object (sym (load_file-eq j parse file root) ∙ e)

-- ===== src/Locales/Lookup.antt =====
-- What the provider answers once the file of a language has been loaded.
use scalable_tcp_server.Base.{
  ℕ, ◌<◌, ◌^◌, ◌≡◌, refl, ap, sym, ◌∙◌, false, ◌==◌, if◌then◌else◌, List, [], ◌∷◌, append-nil,
  Option, none, some, done, ◌>>=◌, codes, same_text, arith,
}
use scalable_tcp_server.Base.Decimal.{decimal}
use scalable_tcp_server.Files.{Source}
use scalable_tcp_server.Files.Reading.{read_file-eq}
use scalable_tcp_server.Config.{Json, Kind}
use scalable_tcp_server.Locales.Numbers.{from_chars-decimal}
use scalable_tcp_server.Locales.{
  Language, en, find, assign, from_chars, Messages, Provider, error_code_to_text, save_one,
  save_entries, save_object, save_value, save_errors, load_file_content, load_language_file,
  language_code_to_text, language_text_to_code, text_or, message_in,
}

-- The last text that a catalogue has for a code.
abbrev pub last_text : ℕ → List (ℕ × List ℕ) → Option (List ℕ)
last_text code [] = none
last_text code ((c, t) ∷ cs) = elim (last_text code cs) [
  | some later ↦ some later
  | none ↦ if c == code then some t else none
]

abbrev pub or_empty : Option (List ℕ) → List ℕ
or_empty none = []
or_empty (some t) = t

abbrev or_else : Option (List ℕ) → Option (List ℕ) → Option (List ℕ)
or_else (some t) o = some t
or_else none o = o

find-assign :
    {V : Type 0} (k i : ℕ) (v : V) (m : List (ℕ × V))
    → find i (assign k v m) ≡ (if k == i then some v else find i m)
find-assign k i v [] = refl
find-assign k i v ((h, w) ∷ m) = ground (arith, find-assign k i v m)

text_or_lem : (o : Option (List ℕ)) → text_or [] (or_else o none) ≡ or_empty o
text_or_lem (some t) = refl
text_or_lem none = refl

module _ (j : Json) where
  -- The members of an object are the entries of a catalogue: the code in decimal, and its text.
  abbrev pub Holds : List (List ℕ × j.Value) → List (ℕ × List ℕ) → Type 0
  Holds [] [] = Unit {0}
  Holds [] (c ∷ cs) = ⊥
  Holds (e ∷ es) [] = ⊥
  Holds ((key, v) ∷ es) ((code, text) ∷ cs) =
      (key ≡ decimal code) × (code < 2 ^ 16) × (j.as_string v ≡ done text) × Holds es cs

  save_entries-cons :
      (key : List ℕ) (v : j.Value) (es : List (List ℕ × j.Value)) (code : ℕ) (text : List ℕ)
      (m : Messages)
      → key ≡ decimal code
      → code < 2 ^ 16
      → j.as_string v ≡ done text
      → save_entries j ((key, v) ∷ es) m ≡ save_entries j es (assign code text m)
  unfolding save_entries
  save_entries-cons key v es code text m is small e =
      let read : from_chars key ≡ some code =
        ap from_chars (is ∙ sym (append-nil (decimal code)))
        ∙ from_chars-decimal code [] small tt in
      ap (λ o. save_one j o v m >>= save_entries j es) read
      ∙ ap (λ o. (o >>= λ t. done (assign code t m)) >>= save_entries j es) e

  save_entries-Holds :
      (es : List (List ℕ × j.Value)) (cs : List (ℕ × List ℕ)) (m : Messages)
      → Holds es cs
      → (m' : Messages) × (save_entries j es m ≡ done m')
        × ((code : ℕ) → find code m' ≡ or_else (last_text code cs) (find code m))
  save_entries-Holds [] [] m h = (m, unfold save_entries in refl, λ code. refl)
  save_entries-Holds [] (c ∷ cs) m h = absurd h
  save_entries-Holds (e ∷ es) [] m h = absurd h
  save_entries-Holds ((key, v) ∷ es) ((c, t) ∷ cs) m (is, small, e, h) =
      let (m', saved, found) = save_entries-Holds es cs (assign c t m) h in
      (
        m',
        save_entries-cons key v es c t m is small e ∙ saved,
        λ code.
            found code
            ∙ ap (or_else (last_text code cs)) (find-assign c code t m)
            ∙ later code (last_text code cs),
      )
    where
      later :
          (code : ℕ) (o : Option (List ℕ))
          → or_else o (if c == code then some t else find code m)
            ≡ or_else
                (elim o as (λ _. Option (List ℕ)) [
                  | some later ↦ some later
                  | none ↦ if c == code then some t else none
                ])
                (find code m)
      later code (some u) = refl
      later code none = ground arith

  -- If the file of a language can be opened and read, and is a JSON object whose members are a
  -- catalogue of codes of 16 bits in decimal and their texts, loading it succeeds, and the provider
  -- then answers for every code the last text that the catalogue has for it, or an empty one.
  pub error_code_to_text-load_language_file :
      (parse : List ℕ → Option j.Value) (open_file : List ℕ → Option Source) (l : Language)
      (p : Provider) (file : Source) (v : j.Value) (object : j.Object) (cs : List (ℕ × List ℕ))
      → open_file (codes "resource/lang/en.json") ≡ some file
      → file.fails ≡ false
      → parse file.bytes ≡ some v
      → j.kind v ≡ Kind.object
      → j.as_object v ≡ done object
      → Holds (j.entries object) cs
      → (p' : Provider) × (load_language_file j parse open_file l p ≡ done p')
        × ((code : ℕ) → error_code_to_text code l p' ≡ or_empty (last_text code cs))
  error_code_to_text-load_language_file parse open_file en p file v object cs opens reads is_json is
        gives h =
      let (m, saved, found) = save_entries-Holds (j.entries object) cs [] h in
      (
        assign 1 m p,
        unfold load_language_file load_file_content save_errors save_value save_object
              language_code_to_text language_text_to_code same_text in
            rw (opens, read_file-eq file, reads, is_json, is, gives, saved) refl,
        λ code.
            unfold error_code_to_text in
            ap (message_in code) (find-assign 1 1 m p)
            ∙ ap (text_or []) (found code)
            ∙ text_or_lem (last_text code cs),
      )

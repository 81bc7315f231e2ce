-- ===== src/Locales.antt =====
-- common/locales: the messages of each language, read from JSON files. The file system and Boost.JSON
-- are parameters; a `std::map` is a list of keys and values, each key once.
pub mod ErrorCodes
pub mod Numbers
pub mod Lookup
mod Runs
use scalable_tcp_server.Base.{
  ℕ, Bool, true, false, not, ltb, ◌==◌, ◌&&◌, leb, if◌then◌else◌, is_empty, List, [], ◌∷◌, ◌++◌,
  Option, none, some, Outcome, done, ◌>>=◌, codes, same_text,
}
use scalable_tcp_server.Base.Decimal.{value}
use scalable_tcp_server.Files.{Source, read_file}
use scalable_tcp_server.Config.{Json, is_object}

pub data Language : Type 0 where
  en : Language

abbrev pub language_value : Language → ℕ
language_value en = 1

-- `std::map`: `find`, and `operator[]` with an assignment.
module _ {ℓ} {V : Type ℓ} where
  abbrev pub find : ℕ → List (ℕ × V) → Option V
  find k [] = none
  find k ((i, v) ∷ m) = let rest = find k m in if i == k then some v else rest

  abbrev pub assign : ℕ → V → List (ℕ × V) → List (ℕ × V)
  assign k v [] = (k, v) ∷ []
  assign k v ((i, w) ∷ m) = let rest = assign k v m in if i == k then (k, v) ∷ m else (i, w) ∷ rest

-- The map `languages`, in the order of its keys.
abbrev pub languages : List (Language × List ℕ)
languages = (en, codes "en") ∷ []

abbrev pub find_language : Language → List (Language × List ℕ) → Option (List ℕ)
find_language l [] = none
find_language l ((k, text) ∷ m) =
    let rest = find_language l m in if language_value k == language_value l then some text else rest

abbrev pub is_some {ℓ} : {A : Type ℓ} → Option A → Bool
is_some none = false
is_some (some a) = true

abbrev pub text_or : List ℕ → Option (List ℕ) → List ℕ
text_or default_text none = default_text
text_or default_text (some text) = text

unfoldable pub check_language : Language → Bool
check_language l = is_some (find_language l languages)

unfoldable pub language_code_to_text : Language → List ℕ
language_code_to_text l = text_or (codes "en") (find_language l languages)

abbrev pub code_of_text : List ℕ → List (Language × List ℕ) → Language
code_of_text text [] = en
code_of_text text ((k, t) ∷ m) =
    let rest = code_of_text text m in if same_text t text then k else rest

unfoldable pub language_text_to_code : List ℕ → Language
language_text_to_code text = code_of_text text languages

-- `std::from_chars` of a `uint16_t`: the digits in front, if there are any and they fit.
unfoldable pub digit_prefix : List ℕ → List ℕ
digit_prefix [] = []
digit_prefix (c ∷ cs) =
    let rest = digit_prefix cs in if leb b'0' c && leb c b'9' then c ∷ rest else []

unfoldable pub from_chars : List ℕ → Option ℕ
unfolding digit_prefix
from_chars key =
    let ds = digit_prefix key in
    if is_empty ds then none else if ltb 65535 (value 0 ds) then none else some (value 0 ds)

-- The messages of one language, and `error_messages_`.
abbrev pub Messages : Type 0
Messages = List (ℕ × List ℕ)

abbrev pub Provider : Type 0
Provider = List (ℕ × Messages)

abbrev pub message_in : ℕ → Option Messages → List ℕ
message_in code none = []
message_in code (some errors) = text_or [] (find code errors)

unfoldable pub error_code_to_text : ℕ → Language → Provider → List ℕ
error_code_to_text code l p = message_in code (find (language_value l) p)

module _ (j : Json) where
  -- One member of the object of a file; a value that is no string throws.
  abbrev pub save_one : Option ℕ → j.Value → Messages → Outcome Messages
  save_one none v errors = done errors
  save_one (some code) v errors = j.as_string v >>= λ text. done (assign code text errors)

  -- The loop over the object.
  unfoldable pub save_entries : List (List ℕ × j.Value) → Messages → Outcome Messages
  save_entries [] errors = done errors
  save_entries ((key, v) ∷ rest) errors = save_one (from_chars key) v errors >>= save_entries rest

  unfoldable pub save_object : List ℕ → j.Object → Provider → Outcome Provider
  unfolding save_entries language_text_to_code
  save_object lang object p = save_entries (j.entries object) [] >>= λ errors.
      done (assign (language_value (language_text_to_code lang)) errors p)

  unfoldable pub save_value : List ℕ → Option j.Value → Provider → Outcome Provider
  unfolding save_object
  save_value lang none p = done p
  save_value lang (some v) p =
      if not (is_object (j.kind v))
      then done p
      else (j.as_object v >>= λ object. save_object lang object p)

  -- `parse` is `json::parse`, `open_file` an existing file that could be opened.
  module _ (parse : List ℕ → Option j.Value) (open_file : List ℕ → Option Source) where
    unfoldable pub save_errors : List ℕ → List ℕ → Provider → Outcome Provider
    unfolding save_value
    save_errors content lang p = save_value lang (parse content) p

    abbrev pub save_content : List ℕ → Option (List ℕ) → Provider → Outcome Provider
    unfolding save_errors
    save_content lang none p = done p
    save_content lang (some content) p = save_errors content lang p

    abbrev pub load_opened : List ℕ → Option Source → Provider → Outcome Provider
    unfolding save_errors
    load_opened lang none p = done p
    load_opened lang (some file) p = read_file file >>= λ content. save_content lang content p

    unfoldable pub load_file_content : List ℕ → Provider → Outcome Provider
    unfolding save_errors
    load_file_content lang p = load_opened lang (open_file (codes "resource/lang/" ++ lang)) p

    unfoldable pub load_language_file : Language → Provider → Outcome Provider
    unfolding load_file_content language_code_to_text
    load_language_file l p = load_file_content (language_code_to_text l ++ codes ".json") p

    abbrev pub load_each : List (Language × List ℕ) → Provider → Outcome Provider
    unfolding load_file_content
    load_each [] p = done p
    load_each ((l, text) ∷ rest) p = load_file_content (text ++ codes ".json") p >>= load_each rest

    unfoldable pub load_language_files : Provider → Outcome Provider
    unfolding load_file_content
    load_language_files p = load_each languages p

-- ===== src/Locales/Runs.antt =====
-- A catalogue of two messages, and the theorems on the locales there.
use scalable_tcp_server.Base.{
  ℕ, ◌≡◌, refl, false, List, [], ◌∷◌, ◌++◌, Option, none, some, Outcome, done, throws, system_error,
  codes, arith,
}
use scalable_tcp_server.Base.Decimal.{decimal}
use scalable_tcp_server.Files.{Source}
use scalable_tcp_server.Config.{Json, Kind}
use scalable_tcp_server.Locales.{
  Language, Provider, from_chars, error_code_to_text, load_language_file,
}
use scalable_tcp_server.Locales.ErrorCodes
use scalable_tcp_server.Locales.Numbers.{from_chars-decimal}
use scalable_tcp_server.Locales.Lookup.{
  Holds, last_text, or_empty, error_code_to_text-load_language_file,
}

from_chars-decimal_example : from_chars (decimal 101 ++ codes " ms") ≡ some 101
from_chars-decimal_example = from_chars-decimal 101 (codes " ms") (omega arith) refl

data Sample : Type 0 where
  nothing catalogue : Sample
  text : List ℕ → Sample

abbrev sample_kind : Sample → Kind
sample_kind nothing = Kind.null
sample_kind catalogue = Kind.object
sample_kind (text t) = Kind.string

abbrev as_object : Sample → Outcome (Unit {0})
as_object catalogue = done tt
as_object _ = throws system_error

abbrev as_string : Sample → Outcome (List ℕ)
as_string (text t) = done t
as_string _ = throws system_error

abbrev sample : Json
sample = record {
  Value = Sample;
  Object = Unit {0};
  null_value = nothing;
  kind = sample_kind;
  find = λ o k. none;
  entries =
      λ o. (codes "1", text (codes "Success")) ∷ (codes "201", text (codes "User not found.")) ∷ [];
  as_object = as_object;
  as_string = as_string;
  as_int64 = λ v. throws system_error;
  as_bool = λ v. throws system_error;
}

abbrev messages : List (ℕ × List ℕ)
messages =
    (ErrorCodes.success, codes "Success")
    ∷ (ErrorCodes.database_user_not_found, codes "User not found.")
    ∷ []

abbrev english : Source
english = record { bytes = codes "{...}"; fails = false }

abbrev json_of : List ℕ → Option Sample
json_of content = some catalogue

abbrev open_file : List ℕ → Option Source
open_file name = some english

sample-Holds : Holds sample (sample.entries tt) messages
unfolding decimal
sample-Holds = (refl, omega arith, refl, (refl, omega arith, refl, tt))

error_code_to_text-load_language_file_example :
    (p : Provider) × (load_language_file sample json_of open_file Language.en [] ≡ done p)
    × ((code : ℕ) → error_code_to_text code Language.en p ≡ or_empty (last_text code messages))
error_code_to_text-load_language_file_example =
    error_code_to_text-load_language_file sample json_of open_file Language.en [] english catalogue
      tt messages refl refl refl refl refl sample-Holds

-- ===== src/Config/Runs.antt =====
-- A configuration with one section and one switch, and the theorems on it.
use scalable_tcp_server.Base.{
  ℕ, ◌≡◌, ◌≢◌, refl, Bool, true, false, List, [], ◌∷◌, length, Option, none, some, Outcome, done,
  throws, system_error, if◌then◌else◌, ◌==◌,
}
use scalable_tcp_server.Word.{u32}
use scalable_tcp_server.Config.{
  Kind, Json, dot, is_integer, find_key, get_int, get_string, get_bool,
}
use scalable_tcp_server.Config.Keys.{ValueAt}
use scalable_tcp_server.Config.Getters.{IsJson, getters_lem}

-- Null, a switch that is on, a section, a number and a text. The root (`true`) holds the section under
-- every key, and the section (`false`) the switch under every key of one byte.
data Sample : Type 0 where
  nothing on section number text : Sample

abbrev sample_kind : Sample → Kind
sample_kind nothing = Kind.null
sample_kind on = Kind.bool
sample_kind section = Kind.object
sample_kind number = Kind.int64
sample_kind text = Kind.string

abbrev sample_find : Bool → List ℕ → Option Sample
sample_find true name = some section
sample_find false name = if length name == 1 then some on else none

abbrev as_object : Sample → Outcome Bool
as_object section = done false
as_object _ = throws system_error

abbrev as_string : Sample → Outcome (List ℕ)
as_string text = done (b'x' ∷ [])
as_string _ = throws system_error

abbrev as_int64 : Sample → Outcome ℕ
as_int64 number = done 7
as_int64 _ = throws system_error

abbrev as_bool : Sample → Outcome Bool
as_bool on = done true
as_bool _ = throws system_error

abbrev sample : Json
sample = record {
  Value = Sample;
  Object = Bool;
  null_value = nothing;
  kind = sample_kind;
  find = sample_find;
  entries = λ o. [];
  as_object = as_object;
  as_string = as_string;
  as_int64 = as_int64;
  as_bool = as_bool;
}

object_done : (v : Sample) → sample_kind v ≡ Kind.object → (o : Bool) × (as_object v ≡ done o)
object_done section e = (false, refl)
object_done nothing e = cc
object_done on e = cc
object_done number e = cc
object_done text e = cc

string_done : (v : Sample) → sample_kind v ≡ Kind.string → (t : List ℕ) × (as_string v ≡ done t)
string_done text e = (b'x' ∷ [], refl)
string_done nothing e = cc
string_done on e = cc
string_done number e = cc
string_done section e = cc

int64_done : (v : Sample) → sample_kind v ≡ Kind.int64 → (i : ℕ) × (as_int64 v ≡ done i)
int64_done number e = (7, refl)
int64_done nothing e = cc
int64_done on e = cc
int64_done text e = cc
int64_done section e = cc

int64_throws : (v : Sample) → sample_kind v ≢ Kind.int64 → as_int64 v ≡ throws system_error
int64_throws number h = absurd (h refl)
int64_throws nothing h = refl
int64_throws on h = refl
int64_throws text h = refl
int64_throws section h = refl

bool_throws : (v : Sample) → sample_kind v ≢ Kind.bool → as_bool v ≡ throws system_error
bool_throws on h = absurd (h refl)
bool_throws nothing h = refl
bool_throws number h = refl
bool_throws text h = refl
bool_throws section h = refl

sample-IsJson : IsJson sample
sample-IsJson = record {
  null_kind = refl;
  object_done = object_done;
  string_done = string_done;
  int64_done = int64_done;
  int64_throws = int64_throws;
  bool_throws = bool_throws;
}

-- The key "s.a".
abbrev switch : List ℕ
switch = b's' ∷ dot ∷ b'a' ∷ []

getters_lem_example :
    (value : Sample) × (find_key sample true switch ≡ done value)
    × ValueAt sample true switch value
    × (sample_kind value ≡ Kind.string
        → (t : List ℕ) × (as_string value ≡ done t) × (get_string sample true switch [] ≡ done t))
    × (sample_kind value ≢ Kind.string → get_string sample true switch [] ≡ done [])
    × (is_integer (sample_kind value) ≡ false → get_int sample true switch 5 ≡ done 5)
    × (sample_kind value ≡ Kind.int64
        → (i : ℕ) × (as_int64 value ≡ done i) × (get_int sample true switch 5 ≡ done (u32 i)))
    × (sample_kind value ≡ Kind.uint64 → get_int sample true switch 5 ≡ throws system_error)
    × (sample_kind value ≡ Kind.bool → get_bool sample true switch false ≡ done false)
    × (sample_kind value ≢ Kind.bool → get_bool sample true switch false ≡ throws system_error)
getters_lem_example = getters_lem sample sample-IsJson true switch [] 5 false

-- ===== src/Samples.antt =====
-- A small JSON, and config.json of the repository in it: what the theorems are tried on.
use scalable_tcp_server.Base.{
  ℕ, ◌≡◌, ◌≢◌, refl, Bool, true, if◌then◌else◌, List, [], ◌∷◌, Option, none, some, Outcome, done,
  throws, system_error, codes, same_text,
}
use scalable_tcp_server.Files.{Source}
use scalable_tcp_server.Config.{Json, Kind}
use scalable_tcp_server.Config.Getters.{IsJson}

mutual
  pub data Value : Type 0 where
    nothing : Value
    switch : Bool → Value
    number : ℕ → Value
    text : List ℕ → Value
    section : Members → Value

  pub data Members : Type 0 where
    end : Members
    member : (key : List ℕ) → Value → Members → Members

abbrev pub kind_of : Value → Kind
kind_of nothing = Kind.null
kind_of (switch b) = Kind.bool
kind_of (number n) = Kind.int64
kind_of (text t) = Kind.string
kind_of (section m) = Kind.object

unfoldable pub find_member : Members → List ℕ → Option Value
unfolding same_text
find_member end key = none
find_member (member k v m) key =
    let rest = find_member m key in if same_text k key then some v else rest

abbrev pub entries_of : Members → List (List ℕ × Value)
entries_of end = []
entries_of (member k v m) = (k, v) ∷ entries_of m

abbrev pub as_object : Value → Outcome Members
as_object (section m) = done m
as_object _ = throws system_error

abbrev pub as_string : Value → Outcome (List ℕ)
as_string (text t) = done t
as_string _ = throws system_error

abbrev pub as_int64 : Value → Outcome ℕ
as_int64 (number n) = done n
as_int64 _ = throws system_error

abbrev pub as_bool : Value → Outcome Bool
as_bool (switch b) = done b
as_bool _ = throws system_error

abbrev pub sample : Json
sample = record {
  Value = Value;
  Object = Members;
  null_value = nothing;
  kind = kind_of;
  find = find_member;
  entries = entries_of;
  as_object = as_object;
  as_string = as_string;
  as_int64 = as_int64;
  as_bool = as_bool;
}

object_done : (v : Value) → kind_of v ≡ Kind.object → (m : Members) × (as_object v ≡ done m)
object_done (section m) e = (m, refl)
object_done nothing e = cc
object_done (switch b) e = cc
object_done (number n) e = cc
object_done (text t) e = cc

string_done : (v : Value) → kind_of v ≡ Kind.string → (t : List ℕ) × (as_string v ≡ done t)
string_done (text t) e = (t, refl)
string_done nothing e = cc
string_done (switch b) e = cc
string_done (number n) e = cc
string_done (section m) e = cc

int64_done : (v : Value) → kind_of v ≡ Kind.int64 → (i : ℕ) × (as_int64 v ≡ done i)
int64_done (number n) e = (n, refl)
int64_done nothing e = cc
int64_done (switch b) e = cc
int64_done (text t) e = cc
int64_done (section m) e = cc

int64_throws : (v : Value) → kind_of v ≢ Kind.int64 → as_int64 v ≡ throws system_error
int64_throws (number n) h = absurd (h refl)
int64_throws nothing h = refl
int64_throws (switch b) h = refl
int64_throws (text t) h = refl
int64_throws (section m) h = refl

bool_throws : (v : Value) → kind_of v ≢ Kind.bool → as_bool v ≡ throws system_error
bool_throws (switch b) h = absurd (h refl)
bool_throws nothing h = refl
bool_throws (number n) h = refl
bool_throws (text t) h = refl
bool_throws (section m) h = refl

pub sample-IsJson : IsJson sample
sample-IsJson = record {
  null_kind = refl;
  object_done = object_done;
  string_done = string_done;
  int64_done = int64_done;
  int64_throws = int64_throws;
  bool_throws = bool_throws;
}

-- config.json, as far as it is read.
abbrev pub shipped : Members
shipped =
    member (codes "server")
      (section (
        member (codes "address") (text (codes "0.0.0.0")) (
          member (codes "port") (number 8080) (
            member (codes "backlog") (number 1024)
              (member (codes "reuse_address") (switch true) end)))))
      (member (codes "thread_pool") (section (member (codes "thread_count") (number 2) end)) (
        member (codes "sessions") (section (member (codes "max_sessions") (number 10000) end)) (
          member (codes "timeouts")
            (section (
              member (codes "read_timeout_seconds") (number 10) (
                member (codes "write_timeout_seconds") (number 10)
                  (member (codes "idle_timeout_seconds") (number 300) end))))
            (member (codes "database")
              (section (
                member (codes "host") (text (codes "localhost")) (
                  member (codes "port") (number 3306) (
                    member (codes "username") (text (codes "asio")) (
                      member (codes "password") (text (codes "asio"))
                        (member (codes "database") (text (codes "server_db")) end))))))
              (member (codes "logging")
                (section (
                  member (codes "level") (text (codes "Info")) (
                    member (codes "file") (text (codes "logs/server.log"))
                      (member (codes "flush_interval_seconds") (number 3) end))))
                end)))))

-- The bytes of the file stand for its text, and `sample_parse` for the parser.
abbrev pub config_json : Source
config_json = record { bytes = codes "{}"; fails = Bool.false }

abbrev pub sample_parse : List ℕ → Option Value
sample_parse content = some (section shipped)

-- ===== src/Logger.antt =====
-- src/logger/logger.cpp. The clock, the file system's answers and the files' contents are arguments.
mod FilePath
pub mod Levels
pub mod Dates
pub mod Paths
pub mod Files
mod Runs
unfoldable pub use FilePath.*
use scalable_tcp_server.Base.{
  ℕ, ◌+◌, Bool, true, false, not, ◌&&◌, ◌||◌, ◌==◌, ltb, if◌then◌else◌, is_empty, List, [], ◌∷◌,
  ◌++◌, Option, none, some, Outcome, done, throws, invalid_argument, ◌>>=◌, codes, same_text,
  split_last,
}
use scalable_tcp_server.Base.Decimal.{decimal}
use scalable_tcp_server.Config.{Json, get_string, get_int}

pub data LogLevel : Type 0 where
  debug info notice warning error critical alert emergency : LogLevel

abbrev pub level_value : LogLevel → ℕ
level_value debug = 0
level_value info = 1
level_value notice = 2
level_value warning = 3
level_value error = 4
level_value critical = 5
level_value alert = 6
level_value emergency = 7

unfoldable pub get_level : List ℕ → Outcome LogLevel
get_level text =
    if same_text text (codes "Debug")
    then done debug
    else if same_text text (codes "Info")
    then done info
    else if same_text text (codes "Notice")
    then done notice
    else if same_text text (codes "Warning")
    then done warning
    else if same_text text (codes "Error")
    then done error
    else if same_text text (codes "Critical")
    then done critical
    else if same_text text (codes "Alert")
    then done alert
    else if same_text text (codes "Emergency")
    then done emergency
    else throws (invalid_argument "Invalid log level")

-- The last line of the source, which throws, is for values that are no enumerator.
unfoldable pub level_to_string : LogLevel → List ℕ
level_to_string debug = codes "Debug"
level_to_string info = codes "Info"
level_to_string notice = codes "Notice"
level_to_string warning = codes "Warning"
level_to_string error = codes "Error"
level_to_string critical = codes "Critical"
level_to_string alert = codes "Alert"
level_to_string emergency = codes "Emergency"

-- What `std::localtime` makes of the time, for years from 1900 on.
pub record Tm : Type 0 where
  pub tm_year : ℕ
  pub tm_mon : ℕ
  pub tm_mday : ℕ
  pub tm_hour : ℕ
  pub tm_min : ℕ
  pub tm_sec : ℕ

abbrev pub dash : ℕ
dash = b'-'

unfoldable pub get_date : Tm → List ℕ
get_date t =
    decimal (t.tm_year + 1900) ++ dash ∷ (decimal (t.tm_mon + 1) ++ dash ∷ decimal t.tm_mday)

abbrev pub two_digits : ℕ → List ℕ
two_digits n = (if ltb n 10 then b'0' ∷ [] else []) ++ decimal n

unfoldable pub get_date_time : Tm → List ℕ
unfolding get_date
get_date_time t =
    get_date t
    ++ b' ' ∷ (two_digits t.tm_hour ++ b':' ∷ (two_digits t.tm_min ++ b':' ∷ two_digits t.tm_sec))

pub record LogPathInfo : Type 0 where
  pub path : List ℕ
  pub name : List ℕ
  pub extention : List ℕ

-- `file` is the name of the file that is open.
pub record Logger : Type 0 where
  pub file : Option (List ℕ)
  pub current_date : List ℕ
  pub config_level : LogLevel
  pub config_file : List ℕ
  pub config_interval_seconds : ℕ
  pub pathinfo : LogPathInfo

module _ (j : Json) where
  -- The constructor.
  unfoldable pub new_logger : j.Object → Outcome Logger
  new_logger root = do
    level_text ← get_string j root (codes "logging.level") []
    level ← get_level level_text
    file ← get_string j root (codes "logging.file") []
    interval ← get_int j root (codes "logging.flush_interval_seconds") 0
    done (record {
      file = none;
      current_date = [];
      config_level = level;
      config_file = file;
      config_interval_seconds = interval;
      pathinfo = record { path = []; name = []; extention = [] };
    })

-- The tests of `getFileFolders`, on the parent and on the stem and extension, and the parts of the
-- path that it keeps. `creates` is whether `create_directories` reports no error for a directory.
unfoldable pub check_path :
    (creates : List ℕ → Bool) → List ℕ → List ℕ × List ℕ → Option LogPathInfo
check_path creates parent (stem, extension) =
    if is_empty extension
    then none
    else if not (same_text extension (codes ".log")) && not (same_text extension (codes ".txt"))
    then none
    else if not (is_empty parent) && not (creates parent)
    then none
    else some (record {
      path = if not (is_empty parent) then parent ++ slash ∷ [] else [];
      name = stem;
      extention = extension;
    })

abbrev pub keep_path : Logger → Option LogPathInfo → Logger × Bool
keep_path l none = (l, false)
keep_path l (some parts) = (record l { pathinfo = parts }, true)

unfoldable pub get_file_folders : (creates : List ℕ → Bool) → Logger → Logger × Bool
unfolding split_name file_name parent_path check_path
get_file_folders creates l =
    keep_path l
      (check_path creates (parent_path l.config_file) (split_name (file_name l.config_file)))

-- The name of the file of a day.
abbrev pub day_file : LogPathInfo → List ℕ → List ℕ
day_file p date = (p.path ++ p.name) ++ dash ∷ (date ++ p.extention)

-- `opens` is whether `file.open` succeeds, if it is called.
unfoldable pub open_file_if_needed : (opens : Bool) → Tm → Logger → Logger
open_file_if_needed opens now l =
    let today = get_date now in
    if not (same_text today l.current_date)
    then record l {
      current_date = today;
      file = if opens then some (day_file l.pathinfo today) else none;
    }
    else l

-- What the files hold, by name.
abbrev pub Disk : Type 0
Disk = List ℕ → List ℕ

abbrev pub append_to : Option (List ℕ) → List ℕ → Disk → Disk
append_to none text disk = disk
append_to (some name) text disk = λ n. if same_text n name then disk n ++ text else disk n

-- What is logged, and when.
pub record Entry : Type 0 where
  pub now : Tm
  pub level : LogLevel
  pub source : List ℕ
  pub message : List ℕ

unfoldable pub line : Entry → List ℕ
line e =
    get_date_time e.now
    ++ (codes " ["
        ++ (level_to_string e.level
            ++ (codes "] "
                ++ (codes "[" ++ (e.source ++ (codes "] " ++ (e.message ++ b'\n' ∷ [])))))))

unfoldable pub log : (opens : Bool) → Entry → Logger × Disk → Logger × Disk
log opens e (l, disk) =
    if ltb (level_value e.level) (level_value l.config_level)
    then (l, disk)
    else (let l' = open_file_if_needed opens e.now l in (l', append_to l'.file (line e) disk))

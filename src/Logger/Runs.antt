-- ===== src/Logger/Runs.antt =====
-- Two entries on two days, the log file of the shipped configuration, and the theorems there.
use scalable_tcp_server.Base.{
  ℕ, ◌≡◌, inl, refl, true, Bool, List, [], ◌∷◌, ◌++◌, none, codes, same_text, arith,
}
use scalable_tcp_server.Base.Decimal.{decimal}
use scalable_tcp_server.Logger.{
  LogLevel, Tm, LogPathInfo, Logger, Disk, Entry, level_to_string, get_date, get_date_time,
  day_file, get_file_folders, line,
}
use scalable_tcp_server.Logger.Paths.{get_file_folders-accepts}
use scalable_tcp_server.Logger.Files.{log_all, written, log_all-disk}

abbrev noon : Tm
noon = record { tm_year = 125; tm_mon = 10; tm_mday = 25; tm_hour = 12; tm_min = 5; tm_sec = 9 }

abbrev next_day : Tm
next_day = record noon { tm_mday = 26 }

abbrev parts : LogPathInfo
parts = record { path = codes "logs/"; name = codes "server"; extention = codes ".log" }

abbrev fresh : Logger
fresh = record {
  file = none;
  current_date = [];
  config_level = LogLevel.info;
  config_file = codes "logs/server.log";
  config_interval_seconds = 3;
  pathinfo = record { path = []; name = []; extention = [] };
}

get_date_time-noon : get_date_time noon ≡ codes "2025-11-25 12:05:09"
unfolding get_date_time decimal
get_date_time-noon = refl

day_file-noon : day_file parts (get_date noon) ≡ codes "logs/server-2025-11-25.log"
unfolding get_date decimal
day_file-noon = refl

abbrev every : List ℕ → Bool
every dir = true

get_file_folders-accepts_example :
    (get_file_folders every fresh ≡ (record fresh { pathinfo = parts }, true))
    × (parts.path ++ (parts.name ++ parts.extention) ≡ fresh.config_file)
get_file_folders-accepts_example =
    get_file_folders-accepts (codes "log") b's' (λ e. omega arith) every fresh b's' (codes "erver")
      (codes ".log") (omega arith) (inl refl) refl refl

abbrev entries : List Entry
entries =
    record { now = noon; level = LogLevel.debug; source = codes "Server"; message = codes "no" }
    ∷ record { now = noon; level = LogLevel.info; source = codes "Server"; message = codes "up" }
    ∷ record {
      now = next_day;
      level = LogLevel.error;
      source = codes "Server";
      message = codes "down";
    }
    ∷ []

abbrev clear : Disk
clear name = []

log_all-disk_example :
    (log_all entries (record fresh { pathinfo = parts }, clear)).1
      (codes "logs/server-2025-11-25.log")
    ≡ clear (codes "logs/server-2025-11-25.log")
      ++ written parts LogLevel.info (codes "logs/server-2025-11-25.log") entries
log_all-disk_example =
    log_all-disk entries (record fresh { pathinfo = parts }) clear
      (codes "logs/server-2025-11-25.log") refl

-- The file of the first day holds the one line that passes.
written_noon :
    written parts LogLevel.info (codes "logs/server-2025-11-25.log") entries
    ≡ codes "2025-11-25 12:05:09 [Info] [Server] up\n"
unfolding written line get_date get_date_time decimal same_text level_to_string
written_noon = refl

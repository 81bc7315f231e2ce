-- ===== src/Logger/Files.antt =====
-- Which lines stand in which file.
use scalable_tcp_server.Base.{
  ℕ, ◌+◌, ◌≡◌, ◌≢◌, ◌⊎◌, inl, inr, refl, sym, ap, ◌∙◌, Bool, true, false, ◌&&◌, ltb, leb,
  if◌then◌else◌, Bool-cases, List, [], ◌∷◌, ◌++◌, append_assoc, append-nil, some, same_text,
  same_text→eq, arith,
}
use scalable_tcp_server.Base.Decimal.{decimal-ne-nil}
use scalable_tcp_server.Logger.{
  LogLevel, level_value, Tm, get_date, LogPathInfo, Logger, day_file, open_file_if_needed, Disk,
  append_to, Entry, line, log,
}

-- Entries logged one after the other, with every file opened.
unfoldable pub log_all : List Entry → Logger × Disk → Logger × Disk
log_all [] state = state
log_all (e ∷ es) state = log_all es (log true e state)

-- The lines of the entries that pass the level and belong to the file `name`, in their order.
unfoldable pub written : LogPathInfo → LogLevel → List ℕ → List Entry → List ℕ
written p level name [] = []
written p level name (e ∷ es) =
    let rest = written p level name es in
    if leb (level_value level) (level_value e.level) && same_text name (day_file p (get_date e.now))
    then line e ++ rest
    else rest

-- The open file is that of the current date, once there is one.
abbrev IsReady : Logger → Type 0
IsReady l = (l.current_date ≡ []) ⊎ (l.file ≡ some (day_file l.pathinfo l.current_date))

get_date-ne-nil : (t : Tm) → get_date t ≢ []
unfolding get_date
get_date-ne-nil t = ne_nil _ _ (decimal-ne-nil (t.tm_year + 1900))
  where
    ne_nil : (xs ys : List ℕ) → xs ≢ [] → xs ++ ys ≢ []
    ne_nil [] ys h = absurd (h refl)
    ne_nil (x ∷ xs) ys h = λ e. cc

opened :
    (now : Tm) (l : Logger)
    → IsReady l
    → open_file_if_needed true now l
      ≡ record l { current_date = get_date now; file = some (day_file l.pathinfo (get_date now)) }
unfolding open_file_if_needed
opened now l ready = elim (Bool-cases (same_text (get_date now) l.current_date)) [
  | inr other ↦ rw other refl
  | inl same ↦
      let today = same_text→eq (get_date now) l.current_date same in
      rw same (ground (arith, get_date-ne-nil now))
]

-- The logger when a line of the day `now` has been written.
abbrev moved : Tm → Logger → Logger
moved now l = record l {
  current_date = get_date now;
  file = some (day_file l.pathinfo (get_date now));
}

leb-ltb : (a b : ℕ) → ltb a b ≡ false → leb b a ≡ true
leb-ltb a b h = ground arith

leb-not_ltb : (a b : ℕ) → ltb a b ≡ true → leb b a ≡ false
leb-not_ltb a b h = ground arith

-- What a file holds after one line, and those that follow.
if_append :
    (b : Bool) (old text rest : List ℕ)
    → (if b then old ++ text else old) ++ rest ≡ old ++ (if b then text ++ rest else rest)
if_append true old text rest = append_assoc old text rest
if_append false old text rest = refl

module _ (e : Entry) (l : Logger) (disk : Disk) where
  log-below :
      ltb (level_value e.level) (level_value l.config_level) ≡ true
      → log true e (l, disk) ≡ (l, disk)
  unfolding log
  log-below below = rw below refl

  log-passes :
      ltb (level_value e.level) (level_value l.config_level) ≡ false
      → IsReady l
      → log true e (l, disk)
        ≡ (moved e.now l, append_to (some (day_file l.pathinfo (get_date e.now))) (line e) disk)
  unfolding log
  log-passes passes ready = rw (passes, opened e.now l ready) refl

log_all_lem :
    (es : List Entry) (l : Logger) (disk : Disk) (name : List ℕ)
    → IsReady l
    → (log_all es (l, disk)).1 name ≡ disk name ++ written l.pathinfo l.config_level name es
unfolding log_all
log_all_lem [] l disk name ready = unfold written in sym (append-nil _)
log_all_lem (e ∷ es) l disk name ready =
    elim (Bool-cases (ltb (level_value e.level) (level_value l.config_level))) [
      | inl below ↦
          ap (λ state. (log_all es state).1 name) (log-below e l disk below)
          ∙ log_all_lem es l disk name ready
          ∙ ap (λ rest. disk name ++ rest)
              (unfold written in
                rw (leb-not_ltb (level_value e.level) (level_value l.config_level) below) refl)
      | inr passes ↦
          let day = day_file l.pathinfo (get_date e.now) in
          ap (λ state. (log_all es state).1 name) (log-passes e l disk passes ready)
          ∙ log_all_lem es (moved e.now l) (append_to (some day) (line e) disk) name (inr refl)
          ∙ if_append (same_text name day) (disk name) (line e)
              (written l.pathinfo l.config_level name es)
          ∙ ap (λ rest. disk name ++ rest)
              (unfold written in
                rw (leb-ltb (level_value e.level) (level_value l.config_level) passes) refl)
    ]

-- For a logger that has not opened a file yet, and a file system that opens every file: after some
-- entries every file holds what it held before and then, one line for each, exactly the entries that
-- are not below the configured level and that were logged on the day of the file's name, in their
-- order.
pub log_all-disk :
    (es : List Entry) (l : Logger) (disk : Disk) (name : List ℕ)
    → l.current_date ≡ []
    → (log_all es (l, disk)).1 name ≡ disk name ++ written l.pathinfo l.config_level name es
log_all-disk es l disk name fresh = log_all_lem es l disk name (inl fresh)

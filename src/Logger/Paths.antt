-- ===== src/Logger/Paths.antt =====
-- How the path of the log file is taken apart.
use scalable_tcp_server.Base.{
  ℕ, ◌≡◌, ◌≢◌, ◌⊎◌, inl, inr, refl, sym, ap, ◌∙◌, Bool, true, false, not, ◌&&◌, ◌==◌, if◌then◌else◌,
  Bool-cases, is_empty, List, [], ◌∷◌, ◌++◌, append_assoc, length, length-append, All, All-append,
  some, codes, same_text, same_text→eq, split_last-some, arith,
}
use mathlib.Core.Path.{ap₂}
use scalable_tcp_server.Logger.{
  Logger, LogPathInfo, slash, dot, file_name, name_of_parts, split_name, stem_of_parts, trim,
  or_root, parent_path, parent_of_parts, check_path, keep_path, get_file_folders,
}

trim-snoc : (dir : List ℕ) (c : ℕ) → c ≢ slash → trim (dir ++ c ∷ []) ≡ dir ++ c ∷ []
unfolding trim
trim-snoc [] c h = ground arith
trim-snoc (x ∷ dir) c h = rw (trim-snoc dir c h) (keeps dir)
  where
    keeps :
        (ys : List ℕ)
        → (if (x == slash) && is_empty (ys ++ c ∷ []) then [] else x ∷ (ys ++ c ∷ []))
          ≡ x ∷ (ys ++ c ∷ [])
    keeps [] = ground arith
    keeps (y ∷ ys) = ground arith

-- A text of more than two bytes is not `..`.
long_name : (name : List ℕ) → length name ≢ 2 → same_text name (codes "..") ≡ false
long_name name h = elim (Bool-cases (same_text name (codes ".."))) [
  | inr other ↦ other
  | inl same ↦ absurd (h (ap length (same_text→eq name (codes "..") same)))
]

split_name_lem :
    (s : ℕ) (stem after : List ℕ)
    → All (λ c. c ≢ dot) after
    → length after ≡ 3
    → split_name ((s ∷ stem) ++ dot ∷ after) ≡ (s ∷ stem, dot ∷ after)
unfolding split_name
split_name_lem s stem after plain three =
    ap (stem_of_parts ((s ∷ stem) ++ dot ∷ after)) (split_last-some dot (s ∷ stem) after plain)
    ∙ rw
        (long_name ((s ∷ stem) ++ dot ∷ after)
          (λ e. omega (arith, length-append (s ∷ stem) (dot ∷ after))))
        refl

-- A folder that does not end in a slash.
module _ (dir : List ℕ) (d : ℕ) (d_plain : d ≢ slash) where
  abbrev folder : List ℕ
  folder = dir ++ d ∷ []

  or_root_lem : or_root folder ≡ folder
  or_root_lem = go dir
    where
      go : (xs : List ℕ) → or_root (xs ++ d ∷ []) ≡ xs ++ d ∷ []
      go [] = refl
      go (x ∷ xs) = refl

  folder_there : is_empty folder ≡ false
  folder_there = go dir
    where
      go : (xs : List ℕ) → is_empty (xs ++ d ∷ []) ≡ false
      go [] = refl
      go (x ∷ xs) = refl

  module _ (name : List ℕ) (name_plain : All (λ c. c ≢ slash) name) where
    file_name_lem : file_name (folder ++ slash ∷ name) ≡ name
    unfolding file_name
    file_name_lem = ap (name_of_parts _) (split_last-some slash folder name name_plain)

    parent_path_lem : parent_path (folder ++ slash ∷ name) ≡ folder
    unfolding parent_path
    parent_path_lem =
        ap parent_of_parts (split_last-some slash folder name name_plain)
        ∙ ap or_root (trim-snoc dir d d_plain)
        ∙ or_root_lem

  module _ (creates : List ℕ → Bool) (made : creates folder ≡ true) (l : Logger) (s : ℕ)
      (stem : List ℕ) (plain : All (λ c. c ≢ slash) (s ∷ stem)) where
    abbrev parts : List ℕ → LogPathInfo
    parts extension = record { path = folder ++ slash ∷ []; name = s ∷ stem; extention = extension }

    check_path_lem :
        (after : List ℕ)
        → not (same_text (dot ∷ after) (codes ".log"))
            && not (same_text (dot ∷ after) (codes ".txt"))
          ≡ false
        → check_path creates folder (s ∷ stem, dot ∷ after) ≡ some (parts (dot ∷ after))
    unfolding check_path
    check_path_lem after known = rw (known, folder_there, made) refl

    accepts :
        (after : List ℕ)
        → All (λ c. c ≢ slash) after
        → All (λ c. c ≢ dot) after
        → length after ≡ 3
        → not (same_text (dot ∷ after) (codes ".log"))
            && not (same_text (dot ∷ after) (codes ".txt"))
          ≡ false
        → l.config_file ≡ folder ++ slash ∷ ((s ∷ stem) ++ dot ∷ after)
        → get_file_folders creates l ≡ (record l { pathinfo = parts (dot ∷ after) }, true)
    unfolding get_file_folders
    accepts after no_slash no_dot three known e =
        let name_plain : All (λ c. c ≢ slash) ((s ∷ stem) ++ dot ∷ after) =
          All-append (λ c. c ≢ slash) (s ∷ stem) (dot ∷ after) plain
            ((λ h. omega arith), no_slash) in
        ap
          (λ file.
            keep_path l (check_path creates (parent_path file) (split_name (file_name file))))
          e
        ∙ ap₂ (λ p n. keep_path l (check_path creates p (split_name n)))
            (parent_path_lem _ name_plain) (file_name_lem _ name_plain)
        ∙ ap (λ n. keep_path l (check_path creates folder n))
            (split_name_lem s stem after no_dot three)
        ∙ ap (keep_path l) (check_path_lem after known)

  -- For a log file whose path is a folder that can be created and does not end in a slash, a slash,
  -- and a name with a stem that is not empty and the extension `.log` or `.txt`, `getFileFolders`
  -- returns true, and keeps the parts, which together are the path.
  pub get_file_folders-accepts :
      (creates : List ℕ → Bool) (l : Logger) (s : ℕ) (stem extension : List ℕ)
      → All (λ c. c ≢ slash) (s ∷ stem)
      → (extension ≡ codes ".log") ⊎ (extension ≡ codes ".txt")
      → creates folder ≡ true
      → l.config_file ≡ folder ++ slash ∷ ((s ∷ stem) ++ extension)
      → let parts : LogPathInfo = record {
        path = folder ++ slash ∷ [];
        name = s ∷ stem;
        extention = extension;
      } in
        (get_file_folders creates l ≡ (record l { pathinfo = parts }, true))
        × (parts.path ++ (parts.name ++ parts.extention) ≡ l.config_file)
  unfolding get_file_folders
  get_file_folders-accepts creates l s stem extension plain known made e = (
    elim known [
      | inl log ↦ rw log (
          accepts creates made l s stem plain (codes "log") (omega arith) (omega arith) refl
            (unfold same_text in refl) (rw log at e))
      | inr txt ↦ rw txt (
          accepts creates made l s stem plain (codes "txt") (omega arith) (omega arith) refl
            (unfold same_text in refl) (rw txt at e))
    ],
    append_assoc folder (slash ∷ []) ((s ∷ stem) ++ extension) ∙ sym e,
  )

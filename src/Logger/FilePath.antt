-- ===== src/Logger/FilePath.antt =====
-- What src/logger/logger.cpp uses of `std::filesystem::path`.
use scalable_tcp_server.Base.{
  ℕ, ◌&&◌, ◌||◌, ◌==◌, if◌then◌else◌, is_empty, List, [], ◌∷◌, Option, none, some, codes, same_text,
  split_last,
}

-- `std::filesystem::path` on POSIX, as far as it is used, for paths that do not start with two slashes.
abbrev pub slash : ℕ
slash = b'/'

abbrev pub dot : ℕ
dot = b'.'

abbrev pub name_of_parts : List ℕ → Option (List ℕ × List ℕ) → List ℕ
name_of_parts path none = path
name_of_parts path (some (dir, name)) = name

unfoldable pub file_name : List ℕ → List ℕ
file_name path = name_of_parts path (split_last slash path)

-- The stem and the extension of a file name; a dot in front, and the name `..`, begin no extension.
abbrev pub stem_of_parts : List ℕ → Option (List ℕ × List ℕ) → List ℕ × List ℕ
stem_of_parts name none = (name, [])
stem_of_parts name (some (stem, after)) =
    if is_empty stem || same_text name (codes "..") then (name, []) else (stem, dot ∷ after)

unfoldable pub split_name : List ℕ → List ℕ × List ℕ
split_name name = stem_of_parts name (split_last dot name)

-- A directory without the slashes behind it.
unfoldable pub trim : List ℕ → List ℕ
trim [] = []
trim (c ∷ cs) = let rest = trim cs in if (c == slash) && is_empty rest then [] else c ∷ rest

abbrev pub or_root : List ℕ → List ℕ
or_root [] = slash ∷ []
or_root (c ∷ cs) = c ∷ cs

abbrev pub parent_of_parts : Option (List ℕ × List ℕ) → List ℕ
parent_of_parts none = []
parent_of_parts (some (dir, name)) = or_root (trim dir)

unfoldable pub parent_path : List ℕ → List ℕ
unfolding trim
parent_path path = parent_of_parts (split_last slash path)

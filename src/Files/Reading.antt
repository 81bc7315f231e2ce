-- ===== src/Files/Reading.antt =====
-- Reading in blocks ends, and gives the file's bytes.
use scalable_tcp_server.Base.{
  ℕ, zero, suc, ◌≤◌, ◌<◌, ◌≡◌, refl, ap, ◌∙◌, leb, if◌then◌else◌, Bool-cases, inl, inr, List, [],
  ◌++◌, append_assoc, length, take, drop, length-drop, take-append-drop, none, some, done, arith,
}
use scalable_tcp_server.Files.{Source, read_blocks, block_size, read_all, read_file}

module _ (block : ℕ) (positive : 0 < block) where
  read_blocks-eq :
      (fuel : ℕ) (rest content : List ℕ)
      → length rest ≤ fuel
      → read_blocks block fuel rest content ≡ done (content ++ rest)
  unfolding read_blocks
  read_blocks-eq zero rest content h = ground arith
  read_blocks-eq (suc fuel) rest content h = elim (Bool-cases (leb block (length rest))) [
    | inr short ↦ rw short refl
    | inl long ↦ rw long (
        read_blocks-eq fuel (drop block rest) (content ++ take block rest)
          (ground (arith, length-drop block rest))
        ∙ ap done (
            append_assoc content (take block rest) (drop block rest)
            ∙ ap (λ xs. content ++ xs) (take-append-drop block rest)))
  ]

  read_all-eq :
      (file : Source) → read_all block file ≡ done (if file.fails then none else some file.bytes)
  unfolding read_all
  read_all-eq file = rw (read_blocks-eq (length file.bytes) file.bytes [] (omega arith)) refl

-- Reading a file ends, and gives all of its bytes in their order, or nothing if a read failed.
pub read_file-eq :
    (file : Source) → read_file file ≡ done (if file.fails then none else some file.bytes)
unfolding read_file
read_file-eq file = read_all-eq block_size (omega arith) file

-- ===== src/Files.antt =====
-- How src/config/config.cpp and common/locales/language_provider.cpp read a whole file: in blocks,
-- until a block comes back short.
pub mod Reading
mod Runs
use scalable_tcp_server.Base.{
  ℕ, zero, suc, Bool, leb, if◌then◌else◌, List, [], ◌++◌, length, take, drop, Option, none, some,
  Outcome, done, stuck, ◌>>=◌,
}

-- An open file: the bytes that can be read from it, and whether what comes behind them is an error
-- and not the end of the file.
pub record Source : Type 0 where
  pub bytes : List ℕ
  pub fails : Bool

-- `while(file.read(buffer, sizeof(buffer)))` on fuel, and the append of the last, short block. A read
-- of a block succeeds if the file still has as many bytes.
unfoldable pub read_blocks : (block : ℕ) → ℕ → List ℕ → List ℕ → Outcome (List ℕ)
read_blocks block zero rest content =
    if leb block (length rest) then stuck else done (content ++ rest)
read_blocks block (suc fuel) rest content =
    let again = read_blocks block fuel (drop block rest) (content ++ take block rest) in
    if leb block (length rest) then again else done (content ++ rest)

-- `sizeof(buffer)`
abbrev pub block_size : ℕ
block_size = 512

-- From the loop to the test of `eof` and `fail`: what the file holds, if all of it could be read. Every
-- round but the last takes a block, so one round for each byte is enough.
unfoldable pub read_all : (block : ℕ) → Source → Outcome (Option (List ℕ))
read_all block file = read_blocks block (length file.bytes) file.bytes [] >>= λ content.
    done (if file.fails then none else some content)

unfoldable pub read_file : Source → Outcome (Option (List ℕ))
unfolding read_all
read_file = read_all block_size

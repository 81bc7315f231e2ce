-- ===== src/Files/Runs.antt =====
-- A configuration file that is read in blocks, and one whose disk fails.
use scalable_tcp_server.Base.{◌≡◌, refl, true, false, if◌then◌else◌, none, some, done, codes}
use scalable_tcp_server.Files.{Source, read_blocks, read_all, read_file}
use scalable_tcp_server.Files.Reading.{read_file-eq}

abbrev config : Source
config = record { bytes = codes "{\"server\": {\"port\": 8080}}"; fails = false }

read_file-eq_example : read_file config ≡ done (if config.fails then none else some config.bytes)
read_file-eq_example = read_file-eq config

-- With blocks of eight bytes.
three_blocks : read_all 8 config ≡ done (some config.bytes)
unfolding read_all read_blocks
three_blocks = refl

broken : read_all 8 (record config { fails = true }) ≡ done none
unfolding read_all read_blocks
broken = refl

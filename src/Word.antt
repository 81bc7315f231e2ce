-- ===== src/Word.antt =====
-- Machine words in memory: how a `uint16_t` or `uint32_t` lies in its bytes on a little-endian or
-- big-endian host (what `std::memcpy` moves), and `htons`/`ntohs`/`htonl`/`ntohl` of arpa/inet.h.
pub mod Order
use scalable_tcp_server.Base.{ℕ, ◌+◌, ◌-◌, ◌*◌, ◌/◌, ◌%◌, ◌^◌, ◌<◌, List, [], ◌∷◌}

pub data Host : Type 0 where
  little big : Host

abbrev pub IsByte : ℕ → Type 0
IsByte b = b < 256

abbrev pub u16 : ℕ → ℕ
u16 n = n % 2 ^ 16

abbrev pub u32 : ℕ → ℕ
u32 n = n % 2 ^ 32

-- `a - b` where the language converts both sides to the 64-bit `size_t`.
abbrev pub sub64 : ℕ → ℕ → ℕ
sub64 a b = (a + 2 ^ 64 - b) % 2 ^ 64

-- The `uint16_t` whose bytes are `a`, `b` in the order of memory.
unfoldable pub load16 : Host → ℕ → ℕ → ℕ
load16 little a b = a + b * 256
load16 big a b = a * 256 + b

unfoldable pub load32 : Host → ℕ → ℕ → ℕ → ℕ → ℕ
load32 little a b c d = a + b * 256 + c * 65536 + d * 16777216
load32 big a b c d = a * 16777216 + b * 65536 + c * 256 + d

-- The bytes of a `uint16_t` in the order of memory.
unfoldable pub store16 : Host → ℕ → List ℕ
store16 little v = v % 256 ∷ v / 256 % 256 ∷ []
store16 big v = v / 256 % 256 ∷ v % 256 ∷ []

unfoldable pub store32 : Host → ℕ → List ℕ
store32 little v = v % 256 ∷ v / 256 % 256 ∷ v / 65536 % 256 ∷ v / 16777216 % 256 ∷ []
store32 big v = v / 16777216 % 256 ∷ v / 65536 % 256 ∷ v / 256 % 256 ∷ v % 256 ∷ []

-- `ntohs` and `htons` are one function, and so are `ntohl` and `htonl`.
unfoldable pub ntohs : Host → ℕ → ℕ
ntohs little v = v % 256 * 256 + v / 256 % 256
ntohs big v = v

unfoldable pub ntohl : Host → ℕ → ℕ
ntohl little v =
    v % 256 * 16777216 + v / 256 % 256 * 65536 + v / 65536 % 256 * 256 + v / 16777216 % 256
ntohl big v = v

abbrev pub htons : Host → ℕ → ℕ
htons = ntohs

abbrev pub htonl : Host → ℕ → ℕ
htonl = ntohl

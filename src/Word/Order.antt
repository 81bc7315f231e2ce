-- ===== src/Word/Order.antt =====
-- Network order: the same four laws for either host.
use scalable_tcp_server.Base.{ℕ, ◌+◌, ◌*◌, ◌/◌, ◌%◌, ◌^◌, ◌<◌, ◌≡◌, refl, List, [], ◌∷◌, arith}
use scalable_tcp_server.Word.{
  Host, little, big, IsByte, load16, load32, store16, store32, ntohs, ntohl,
}

-- The big-endian bytes of a word, as they go over the network.
abbrev pub be16 : ℕ → List ℕ
be16 v = v / 256 ∷ v % 256 ∷ []

abbrev pub be32 : ℕ → List ℕ
be32 v = v / 16777216 ∷ v / 65536 % 256 ∷ v / 256 % 256 ∷ v % 256 ∷ []

-- What comes from the network as `a`, `b` is read as `a * 256 + b`.
pub ntohs-load16 :
    (host : Host) (a b : ℕ) → IsByte a → IsByte b → ntohs host (load16 host a b) ≡ a * 256 + b
unfolding ntohs load16
ntohs-load16 little a b ha hb = omega arith
ntohs-load16 big a b ha hb = refl

pub ntohl-load32 :
    (host : Host) (a b c d : ℕ)
    → IsByte a
    → IsByte b
    → IsByte c
    → IsByte d
    → ntohl host (load32 host a b c d) ≡ a * 16777216 + b * 65536 + c * 256 + d
unfolding ntohl load32
ntohl-load32 little a b c d ha hb hc hd = omega arith
ntohl-load32 big a b c d ha hb hc hd = refl

-- What is sent of `v` is its big-endian bytes.
pub store16-ntohs : (host : Host) (v : ℕ) → v < 2 ^ 16 → store16 host (ntohs host v) ≡ be16 v
unfolding store16 ntohs
store16-ntohs little v h = ground arith
store16-ntohs big v h = ground arith

pub store32-ntohl : (host : Host) (v : ℕ) → v < 2 ^ 32 → store32 host (ntohl host v) ≡ be32 v
unfolding store32 ntohl
store32-ntohl little v h = ground arith
store32-ntohl big v h = ground arith

pub load16-lt : (host : Host) (a b : ℕ) → IsByte a → IsByte b → load16 host a b < 2 ^ 16
unfolding load16
load16-lt little a b ha hb = omega arith
load16-lt big a b ha hb = omega arith

-- A `uint16_t` that is stored and loaded on one host is the same number.
pub load16-store16 :
    (host : Host) (v : ℕ)
    → v < 2 ^ 16
    → (a : ℕ) × (b : ℕ) × (store16 host v ≡ a ∷ b ∷ [])
      × IsByte a
      × IsByte b
      × (load16 host a b ≡ v)
unfolding load16 store16
load16-store16 little v h = (v % 256, v / 256 % 256, refl, omega arith, omega arith, omega arith)
load16-store16 big v h = (v / 256 % 256, v % 256, refl, omega arith, omega arith, omega arith)

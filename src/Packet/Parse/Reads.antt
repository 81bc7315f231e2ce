-- ===== src/Packet/Parse/Reads.antt =====
-- Reads of the buffer that stay inside it.
use scalable_tcp_server.Base.{
  ℕ, ◌+◌, ◌*◌, ◌^◌, ◌≤◌, ◌<◌, ◌≡◌, refl, List, [], ◌∷◌, length, All, get_elem?, zero, suc, some,
  done, arith,
}
use scalable_tcp_server.Word.{Host, IsByte, load16, load32, ntohs, ntohl}
use scalable_tcp_server.Word.Order.{load16-lt, ntohs-load16, ntohl-load32}
use scalable_tcp_server.Packet.{byte_at, read16, read32}

get_elem?-IsByte :
    (xs : List ℕ) (i : ℕ)
    → All IsByte xs
    → i < length xs
    → (b : ℕ) × (get_elem? xs i ≡ some b) × IsByte b
get_elem?-IsByte [] i a h = elim h [ ]
get_elem?-IsByte (x ∷ xs) zero a h = (x, refl, a.0)
get_elem?-IsByte (x ∷ xs) (suc i) a h = get_elem?-IsByte xs i a.1 (omega arith)

-- A field of two or four bytes in network order.
abbrev pub Field16 : List ℕ → ℕ → ℕ → Type 0
Field16 buffer i v =
    (a : ℕ) × (b : ℕ) × (byte_at buffer i ≡ done a)
    × (byte_at buffer (i + 1) ≡ done b)
    × (v ≡ a * 256 + b)

abbrev pub Field32 : List ℕ → ℕ → ℕ → Type 0
Field32 buffer i v =
    (a : ℕ) × (b : ℕ) × (c : ℕ) × (d : ℕ) × (byte_at buffer i ≡ done a)
    × (byte_at buffer (i + 1) ≡ done b)
    × (byte_at buffer (i + 2) ≡ done c)
    × (byte_at buffer (i + 3) ≡ done d)
    × (v ≡ a * 16777216 + b * 65536 + c * 256 + d)

module _ (buffer : List ℕ) (bytes : All IsByte buffer) where
  -- A byte inside the buffer is read.
  pub byte_at-done : (i : ℕ) → i < length buffer → (b : ℕ) × (byte_at buffer i ≡ done b) × IsByte b
  unfolding byte_at
  byte_at-done i h =
      let (b, e, small) = get_elem?-IsByte buffer i bytes h in (b, rw (e, byte_at), small)

  pub read16-done :
      (host : Host) (i : ℕ)
      → i + 2 ≤ length buffer
      → (v : ℕ) × (read16 host buffer i ≡ done v) × (v < 2 ^ 16)
  unfolding read16
  read16-done host i h =
      let (a, ea, ha) = byte_at-done i (omega arith) in
      let (b, eb, hb) = byte_at-done (i + 1) (omega arith) in
      (load16 host a b, rw (ea, eb), load16-lt host a b ha hb)

  -- The same read, of a field in network order.
  pub Field16-done :
      (host : Host) (i : ℕ)
      → i + 2 ≤ length buffer
      → (v : ℕ) × (read16 host buffer i ≡ done v) × Field16 buffer i (ntohs host v)
  unfolding read16
  Field16-done host i h =
      let (a, ea, ha) = byte_at-done i (omega arith) in
      let (b, eb, hb) = byte_at-done (i + 1) (omega arith) in
      (load16 host a b, rw (ea, eb), (a, b, ea, eb, ntohs-load16 host a b ha hb))

  pub Field32-done :
      (host : Host) (i : ℕ)
      → i + 4 ≤ length buffer
      → (v : ℕ) × (read32 host buffer i ≡ done v) × Field32 buffer i (ntohl host v)
  unfolding read32
  Field32-done host i h =
      let (a, ea, ha) = byte_at-done i (omega arith) in
      let (b, eb, hb) = byte_at-done (i + 1) (omega arith) in
      let (c, ec, hc) = byte_at-done (i + 2) (omega arith) in
      let (d, ed, hd) = byte_at-done (i + 3) (omega arith) in
      (
        load32 host a b c d,
        rw (ea, eb, ec, ed),
        (a, b, c, d, ea, eb, ec, ed, ntohl-load32 host a b c d ha hb hc hd),
      )

module _ (buffer : List ℕ) (i v w : ℕ) where
  -- A field has one value.
  pub Field16-eq : Field16 buffer i v → Field16 buffer i w → v ≡ w
  Field16-eq (a, b, ea, eb, ev) (c, d, ec, ed, ew) = ground arith

  pub Field32-eq : Field32 buffer i v → Field32 buffer i w → v ≡ w
  Field32-eq (a, b, c, d, ea, eb, ec, ed, ev) (a', b', c', d', ea', eb', ec', ed', ew) =
      ground arith

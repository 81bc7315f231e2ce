-- ===== src/Packet/Lookup/Agree.antt =====
-- On a packet that the constructor returned, the lookups stay inside the buffer, and the two numeric
-- ones decode the bytes that the text one returns.
use scalable_tcp_server.Base.{
  ℕ, zero, suc, ◌+◌, ◌*◌, ◌≤◌, ◌≡◌, ◌≢◌, refl, List, [], ◌∷◌, length, length-take, length-drop,
  take, drop, All, Option, none, some, done, ◌>>=◌, arith, Bool-cases, inl, inr, ◌==◌, false, ==→eq,
  if◌then◌else◌, not, ap, sym,
}
use mathlib.Core.Path.{subst}
use scalable_tcp_server.Word.{Host, IsByte, ntohl}
use scalable_tcp_server.Packet.{
  Packet, SubHeader, SubHeaderType, same_sub_header, byte_at, read32, offset_headers,
}
use scalable_tcp_server.Packet.Parse.{parse}
use scalable_tcp_server.Packet.Parse.Reads.{byte_at-done, Field32-done}
use scalable_tcp_server.Packet.Parse.Tiles.{Tiles}
use scalable_tcp_server.Packet.Parse.Shape.{parse-done_iff}
use scalable_tcp_server.Packet.Lookup.{
  find_uint8, find_uint32, find_string, sub_header_get_uint8, sub_header_get_uint32,
  sub_header_get_string,
}

abbrev pub decode8 : Option (List ℕ) → Option ℕ
decode8 none = none
decode8 (some []) = none
decode8 (some (b ∷ [])) = some b
decode8 (some (b ∷ c ∷ bs)) = none

-- Four bytes in network order.
abbrev pub decode32 : Option (List ℕ) → Option ℕ
decode32 (some (a ∷ b ∷ c ∷ d ∷ [])) = some (a * 16777216 + b * 65536 + c * 256 + d)
decode32 _ = none

decode8-none : (bs : List ℕ) → length bs ≢ 1 → decode8 (some bs) ≡ none
decode8-none [] h = refl
decode8-none (b ∷ []) h = absurd (h refl)
decode8-none (b ∷ c ∷ bs) h = refl

decode32-none : (bs : List ℕ) → length bs ≢ 4 → decode32 (some bs) ≡ none
decode32-none [] h = refl
decode32-none (a ∷ []) h = refl
decode32-none (a ∷ b ∷ []) h = refl
decode32-none (a ∷ b ∷ c ∷ []) h = refl
decode32-none (a ∷ b ∷ c ∷ d ∷ []) h = absurd (h refl)
decode32-none (a ∷ b ∷ c ∷ d ∷ e ∷ bs) h = refl

take-drop_step :
    (buffer : List ℕ) (i j n b : ℕ)
    → j ≡ i + 1
    → byte_at buffer i ≡ done b
    → take (suc n) (drop i buffer) ≡ b ∷ take n (drop j buffer)
unfolding byte_at
take-drop_step [] i j n b ej e = cc
take-drop_step (x ∷ xs) zero zero n b ej e = absurd (omega arith)
take-drop_step (x ∷ xs) zero (suc j) n b ej e =
    let here : j ≡ 0 = omega arith in let same : x ≡ b = ground arith in rw (here, same)
take-drop_step (x ∷ xs) (suc i) zero n b ej e = absurd (omega arith)
take-drop_step (x ∷ xs) (suc i) (suc j) n b ej e = take-drop_step xs i j n b (omega arith) e

length-slice :
    (buffer : List ℕ) (i n : ℕ) → i + n ≤ length buffer → length (take n (drop i buffer)) ≡ n
length-slice buffer i n h = length-take n (drop i buffer) (omega (arith, length-drop i buffer))

-- The span lies inside the buffer.
abbrev IsInside : List ℕ → SubHeader → Type 0
IsInside buffer s = s.value.offset + s.value.size ≤ length buffer

Tiles-le :
    (host : Host) (buffer : List ℕ) (header_size count : ℕ) (ss : List SubHeader)
    → Tiles host buffer header_size count ss
    → count ≤ header_size
Tiles-le host buffer header_size count [] h = omega arith
Tiles-le host buffer header_size count (s ∷ ss) (here, after) =
    omega (arith, Tiles-le host buffer header_size (count + 3 + s.size) ss after)

Tiles-IsInside :
    (host : Host) (buffer : List ℕ) (header_size count : ℕ) (ss : List SubHeader)
    → offset_headers + header_size ≤ length buffer
    → Tiles host buffer header_size count ss
    → All (IsInside buffer) ss
Tiles-IsInside host buffer header_size count [] room h = tt
Tiles-IsInside host buffer header_size count (s ∷ ss) room (here, after) = (
  omega (arith, here, Tiles-le host buffer header_size (count + 3 + s.size) ss after),
  Tiles-IsInside host buffer header_size (count + 3 + s.size) ss room after,
)

module _ (host : Host) (buffer : List ℕ) (bytes : All IsByte buffer) (i n : ℕ)
    (inside : i + n ≤ length buffer) where
  uint8_at :
      (if not (n == 1) then done none else (byte_at buffer i >>= λ v. done (some v)))
      ≡ done (decode8 (some (take n (drop i buffer))))
  uint8_at = elim (Bool-cases (n == 1)) [
    | inr other ↦ rw other (
        ap done (
          sym (
            decode8-none (take n (drop i buffer))
              (omega (arith, length-slice buffer i n inside, other_size other)))))
    | inl one ↦
        let size : n ≡ 1 = ==→eq n 1 one in
        let (b, e, _) = byte_at-done buffer bytes i (omega arith) in
        rw (size, e, take-drop_step buffer i (i + 1) 0 b refl e)
  ]
    where
      other_size : (n == 1) ≡ false → n ≢ 1
      other_size h e = ground arith

  uint32_at :
      (if not (n == 4)
        then done none
        else (read32 host buffer i >>= λ v. done (some (ntohl host v))))
      ≡ done (decode32 (some (take n (drop i buffer))))
  uint32_at = elim (Bool-cases (n == 4)) [
    | inr other ↦ rw other (
        ap done (
          sym (
            decode32-none (take n (drop i buffer))
              (omega (arith, length-slice buffer i n inside, other_size other)))))
    | inl four ↦
        let size : n ≡ 4 = ==→eq n 4 four in
        let (v, e, (a, b, c, d, ea, eb, ec, ed, ev)) =
          Field32-done buffer bytes host i (omega arith) in
        rw (
          size,
          e,
          take-drop_step buffer i (i + 1) 3 a refl ea,
          take-drop_step buffer (i + 1) (i + 2) 2 b (omega arith) eb,
          take-drop_step buffer (i + 2) (i + 3) 1 c (omega arith) ec,
          take-drop_step buffer (i + 3) (i + 4) 0 d (omega arith) ed,
          ev,
        )
  ]
    where
      other_size : (n == 4) ≡ false → n ≢ 4
      other_size h e = ground arith

module _ (host : Host) (buffer : List ℕ) (bytes : All IsByte buffer) (type : SubHeaderType) where
  agree :
      (ss : List SubHeader)
      → All (IsInside buffer) ss
      → (o : Option (List ℕ)) × (find_string buffer type ss ≡ done o)
        × (find_uint8 buffer type ss ≡ done (decode8 o))
        × (find_uint32 host buffer type ss ≡ done (decode32 o))
  unfolding find_string find_uint8 find_uint32
  agree [] h = (none, refl, refl, refl)
  agree (s ∷ ss) (inside, rest) = elim (Bool-cases (same_sub_header s.type type)) [
    | inr other ↦ rw other (agree ss rest)
    | inl hit ↦ (
      some (take s.value.size (drop s.value.offset buffer)),
      ground arith,
      rw hit (uint8_at host buffer bytes s.value.offset s.value.size inside),
      rw hit (uint32_at host buffer bytes s.value.offset s.value.size inside),
    )
  ]

-- On a packet that the constructor made from bytes, each lookup returns, with no read outside the buffer;
-- the numeric ones give the text lookup's bytes as a number, and nothing if their count is not 1 or 4.
pub lookups_agree :
    (host : Host) (bytes : List ℕ) (p : Packet) (type : SubHeaderType)
    → All IsByte bytes
    → parse host bytes ≡ done p
    → (o : Option (List ℕ)) × (sub_header_get_string p type ≡ done o)
      × (sub_header_get_uint8 p type ≡ done (decode8 o))
      × (sub_header_get_uint32 host p type ≡ done (decode32 o))
unfolding sub_header_get_string sub_header_get_uint8 sub_header_get_uint32
lookups_agree host bytes p type are_bytes e =
    let (_, q) = (parse-done_iff host bytes are_bytes p).0 e in
    agree host p.buffer (subst (All IsByte) (sym q.buffer_lem) are_bytes) type p.headers (
      Tiles-IsInside host p.buffer p.header_size 0 p.headers
        (omega (arith, ap length q.buffer_lem, q.payload_at, q.payload_size_lem, q.size_lem))
        (subst (λ b. Tiles host b p.header_size 0 p.headers) (sym q.buffer_lem) q.headers_tile))

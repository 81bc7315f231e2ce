-- ===== src/Packet/Encode.antt =====
-- Sub headers as bytes, in the form that the comment of common/packet.hpp draws: a size of two bytes
-- (which `parseSubHeaders` takes in the order of the host), a type of one byte, and the value.
use scalable_tcp_server.Base.{
  ℕ, zero, suc, ◌+◌, ◌^◌, ◌≤◌, ◌<◌, ◌≡◌, ◌≢◌, refl, List, [], ◌∷◌, ◌++◌, append_assoc, length,
  length-append, All, All-append, done, arith, ap, ◌∙◌, sym,
}
use mathlib.Core.Path.{subst₂}
use scalable_tcp_server.Word.{Host, IsByte, store16}
use scalable_tcp_server.Word.Order.{load16-store16}
use scalable_tcp_server.Packet.{
  SubHeader, SubHeaderType, byte_at, read16, max_header_size, offset_headers, sub_header_to_byte,
  sub_header_from_byte,
}
use scalable_tcp_server.Packet.Parse.Tiles.{Tiles}

pub record Entry : Type 0 where
  pub type : SubHeaderType
  pub value : List ℕ

abbrev pub encode : Host → Entry → List ℕ
encode host s = store16 host (length s.value) ++ sub_header_to_byte s.type ∷ s.value

abbrev pub encode_all : Host → List Entry → List ℕ
encode_all host [] = []
encode_all host (s ∷ ss) = encode host s ++ encode_all host ss

-- The types that have a byte, and values of bytes.
pub record IsEntry (s : Entry) : Type 0 where
  pub known : s.type ≢ SubHeaderType.unknown
  pub written : s.type ≢ SubHeaderType.action
  pub bytes : All IsByte s.value

-- The sub headers that the entries become, the first at `count` bytes into the header area.
abbrev pub placed : ℕ → List Entry → List SubHeader
placed count [] = []
placed count (s ∷ ss) =
    record {
      size = length s.value;
      type = s.type;
      value = record { offset = offset_headers + (count + 3); size = length s.value };
    }
    ∷ placed (count + 3 + length s.value) ss

byte-IsByte : (t : SubHeaderType) → IsByte (sub_header_to_byte t)
unfolding sub_header_to_byte
byte-IsByte SubHeaderType.session_id = omega arith
byte-IsByte SubHeaderType.user_id = omega arith
byte-IsByte SubHeaderType.auth_token = omega arith
byte-IsByte SubHeaderType.unknown = omega arith
byte-IsByte SubHeaderType.action = omega arith

from_byte-to_byte :
    (t : SubHeaderType)
    → t ≢ SubHeaderType.unknown
    → t ≢ SubHeaderType.action
    → sub_header_from_byte (sub_header_to_byte t) ≡ t
unfolding sub_header_to_byte sub_header_from_byte
from_byte-to_byte SubHeaderType.session_id h k = refl
from_byte-to_byte SubHeaderType.user_id h k = refl
from_byte-to_byte SubHeaderType.auth_token h k = refl
from_byte-to_byte SubHeaderType.unknown h k = absurd (h refl)
from_byte-to_byte SubHeaderType.action h k = absurd (k refl)

store16-IsByte : (host : Host) (v : ℕ) → All IsByte (store16 host v)
unfolding store16
store16-IsByte Host.little v = (omega arith, (omega arith, tt))
store16-IsByte Host.big v = (omega arith, (omega arith, tt))

length-store16 : (host : Host) (v : ℕ) → length (store16 host v) ≡ 2
unfolding store16
length-store16 Host.little v = refl
length-store16 Host.big v = refl

pub length-encode_all :
    (host : Host) (s : Entry) (ss : List Entry)
    → length (encode_all host (s ∷ ss)) ≡ length s.value + 3 + length (encode_all host ss)
length-encode_all host s ss = omega (
  arith,
  length-append (encode host s) (encode_all host ss),
  length-append (store16 host (length s.value)) (sub_header_to_byte s.type ∷ s.value),
  length-store16 host (length s.value),
)

pub encode_all-IsByte :
    (host : Host) (ss : List Entry) → All IsEntry ss → All IsByte (encode_all host ss)
encode_all-IsByte host [] a = tt
encode_all-IsByte host (s ∷ ss) (e, es) =
    All-append IsByte (encode host s) (encode_all host ss)
      (All-append IsByte (store16 host (length s.value)) (sub_header_to_byte s.type ∷ s.value)
        (store16-IsByte host (length s.value)) (byte-IsByte s.type, e.bytes))
      (encode_all-IsByte host ss es)

-- A byte behind `xs`.
byte_at-append :
    (xs ys : List ℕ) (i j : ℕ) → j ≡ length xs + i → byte_at (xs ++ ys) j ≡ byte_at ys i
unfolding byte_at
byte_at-append [] ys i j e = ap (byte_at ys) (let e' : j ≡ i = omega arith in e')
byte_at-append (x ∷ xs) ys i zero e = absurd (omega arith)
byte_at-append (x ∷ xs) ys i (suc j) e = byte_at-append xs ys i j (omega arith)

read16-store16 :
    (host : Host) (front rest : List ℕ) (v j : ℕ)
    → v < 2 ^ 16
    → j ≡ length front
    → read16 host (front ++ (store16 host v ++ rest)) j ≡ done v
unfolding read16
read16-store16 host front rest v j h e =
    let (a, b, es, _, _, el) = load16-store16 host v h in
    rw es (
      rw
        (
          byte_at-append front (a ∷ b ∷ rest) 0 j (omega arith),
          byte_at-append front (a ∷ b ∷ rest) 1 (j + 1) (omega arith),
        )
        (unfold byte_at in ap done el))

-- Encoded entries, wherever they stand in a buffer, tile the area that they fill.
pub Tiles-placed :
    (host : Host) (ss : List Entry) (front rest : List ℕ) (count : ℕ)
    → All IsEntry ss
    → length (encode_all host ss) ≤ max_header_size
    → length front ≡ offset_headers + count
    → Tiles host
        (front ++ (encode_all host ss ++ rest))
        (count + length (encode_all host ss))
        count
        (placed count ss)
Tiles-placed host [] front rest count a small at = omega arith
Tiles-placed host (s ∷ ss) front rest count (entry, entries) small at = (
  record {
    size_read = rw by_size (
        read16-store16 host front (type ∷ tail) (length s.value) (offset_headers + count)
          (omega (arith, whole)) (sym at));
    size_fits = omega (arith, whole);
    type_byte = type;
    type_read = rw by_type (
        byte_at-append (front ++ store16 host (length s.value)) (type ∷ tail) 0
          (offset_headers + (count + 2))
          (omega (
            arith,
            length-append front (store16 host (length s.value)),
            length-store16 host (length s.value),
          ))
        ∙ unfold byte_at in refl);
    type_lem = from_byte-to_byte s.type entry.known entry.written;
    known = entry.known;
    value_at = refl;
    value_whole = refl;
  },
  subst₂
      (λ buffer n.
        Tiles host buffer n (count + 3 + length s.value) (placed (count + 3 + length s.value) ss))
      (sym by_rest) (omega (arith, whole))
      (Tiles-placed host ss (front ++ encode host s) rest (count + 3 + length s.value) entries
        (omega (arith, whole))
        (omega (
          arith,
          length-append front (encode host s),
          length-append (store16 host (length s.value)) (type ∷ s.value),
          length-store16 host (length s.value),
        ))),
)
  where
    type : ℕ
    type = sub_header_to_byte s.type

    tail : List ℕ
    tail = s.value ++ (encode_all host ss ++ rest)

    whole : length (encode_all host (s ∷ ss)) ≡ length s.value + 3 + length (encode_all host ss)
    whole = length-encode_all host s ss

    by_size :
        front ++ ((encode host s ++ encode_all host ss) ++ rest)
        ≡ front ++ (store16 host (length s.value) ++ (type ∷ tail))
    by_size = simp append_assoc

    by_type :
        front ++ ((encode host s ++ encode_all host ss) ++ rest)
        ≡ (front ++ store16 host (length s.value)) ++ (type ∷ tail)
    by_type = simp append_assoc

    by_rest :
        front ++ ((encode host s ++ encode_all host ss) ++ rest)
        ≡ (front ++ encode host s) ++ (encode_all host ss ++ rest)
    by_rest = simp append_assoc

-- ===== src/Packet/Accessors.antt =====
-- The accessors of common/packet.cpp that give a pointer into the buffer, and what they point to.
use scalable_tcp_server.Base.{
  ℕ, zero, suc, ◌+◌, ◌^◌, ◌≤◌, ◌<◌, ◌≡◌, refl, sym, ap, ◌∙◌, List, [], ◌∷◌, ◌++◌, length, take,
  drop, length-take, length-drop, take-append-drop, All, Outcome, done, arith,
}
use native.Mathlib.Nat.{zero-add}
use scalable_tcp_server.Word.{Host, IsByte}
use scalable_tcp_server.Packet.{Packet, offset_headers}
use scalable_tcp_server.Packet.Lookup.{read_span}
use scalable_tcp_server.Packet.Parse.{parse}
use scalable_tcp_server.Packet.Parse.Shape.{parse-done_iff}
use scalable_tcp_server.Auth.{LoginRequest}
use scalable_tcp_server.Auth.Handler.{deserialize_login_request}

-- A pointer into the buffer is what the buffer holds from there on.
unfoldable pub headers : Packet → List ℕ
headers p = drop offset_headers p.buffer

unfoldable pub payload : Packet → List ℕ
payload p = drop p.offset_payload p.buffer

drop-nil : (n : ℕ) → drop {A = ℕ} n [] ≡ []
drop-nil zero = refl
drop-nil (suc n) = refl

drop-drop : (m n : ℕ) (xs : List ℕ) → drop n (drop m xs) ≡ drop (m + n) xs
drop-drop zero n xs = ap (λ k. drop k xs) (sym (zero-add n))
drop-drop (suc m) n [] = drop-nil n ∙ sym (drop-nil (suc m + n))
drop-drop (suc m) n (x ∷ xs) =
    let e : suc (m + n) ≡ suc m + n = omega arith in drop-drop m n xs ∙ ap (λ k. drop k (x ∷ xs)) e

take_all : (n : ℕ) (xs : List ℕ) → length xs ≤ n → take n xs ≡ xs
take_all zero [] h = refl
take_all zero (x ∷ xs) h = absurd (omega arith)
take_all (suc n) [] h = refl
take_all (suc n) (x ∷ xs) h = ap (λ ys. x ∷ ys) (take_all n xs (omega arith))

-- A list cut in three.
in_three :
    (a h n : ℕ) (xs : List ℕ)
    → a + h + n ≡ length xs
    → take a xs ++ (take h (drop a xs) ++ take n (drop (a + h) xs)) ≡ xs
in_three a h n xs e =
    ap (λ ys. take a xs ++ (take h (drop a xs) ++ ys))
      (take_all n (drop (a + h) xs) (omega (arith, length-drop (a + h) xs))
        ∙ sym (drop-drop a h xs))
    ∙ ap (λ ys. take a xs ++ ys) (take-append-drop h (drop a xs))
    ∙ take-append-drop a xs

-- What the constructor made of fewer than 2^32 bytes, by the accessors: the bytes are the 14 of the
-- fields, the `header_size` ones from `headers()` on and the `payload_size` ones from `payload()` on,
-- with nothing between, before or behind them, and the archive of a login request is made of the last
-- of the three.
pub spans_lem :
    (host : Host) (bytes : List ℕ) (p : Packet)
    → All IsByte bytes
    → length bytes < 2 ^ 32
    → parse host bytes ≡ done p
    → (take offset_headers bytes
          ++ (take p.header_size (headers p) ++ take p.payload_size (payload p))
        ≡ bytes)
      × (length (take p.header_size (headers p)) ≡ p.header_size)
      × (length (take p.payload_size (payload p)) ≡ p.payload_size)
      × ((deserialize : List ℕ → Outcome LoginRequest)
          → deserialize_login_request deserialize p ≡ deserialize (take p.payload_size (payload p)))
unfolding headers payload deserialize_login_request read_span
spans_lem host bytes p are short e =
    let (long, q) = (parse-done_iff host bytes are p).0 e in
    let b : p.buffer ≡ bytes = q.buffer_lem in
    let at_payload : p.offset_payload + p.payload_size ≡ length bytes =
      omega (arith, q.payload_size_lem, q.size_lem) in
    let at : p.offset_payload ≡ offset_headers + p.header_size = q.payload_at in
    (
      rw (b, at)
          (in_three offset_headers p.header_size p.payload_size bytes
            (omega (arith, at, at_payload))),
      length-take p.header_size (drop offset_headers p.buffer)
          (omega (arith, length-drop offset_headers p.buffer, ap length b, at, at_payload)),
      length-take p.payload_size (drop p.offset_payload p.buffer)
          (omega (arith, length-drop p.offset_payload p.buffer, ap length b, at_payload)),
      λ deserialize. ground (arith, ap length b),
    )

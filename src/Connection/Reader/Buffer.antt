-- ===== src/Connection/Reader/Buffer.antt =====
-- How large the buffer of the reader is.
use scalable_tcp_server.Base.{
  ℕ, zero, suc, ◌+◌, ◌-◌, ◌≤◌, ◌≡◌, refl, ap, ◌∙◌, List, [], ◌∷◌, length, set, take, replicate,
  length-append, arith,
}
use scalable_tcp_server.Word.{Host, u32, store32, htonl}
use scalable_tcp_server.Packet.{packet_length, max_packet_size}
use scalable_tcp_server.Packet.Create.{write_bytes}
use scalable_tcp_server.Connection.{Session}
use scalable_tcp_server.Connection.Reader.{resize, read_body}

length-replicate : (n c : ℕ) → length (replicate n c) ≡ n
length-replicate zero c = refl
length-replicate (suc n) c = ap suc (length-replicate n c)

length-take_or_all : (n : ℕ) (xs : List ℕ) → length (take n xs) + (n - length xs) ≡ n
length-take_or_all zero xs = omega arith
length-take_or_all (suc n) [] = omega arith
length-take_or_all (suc n) (x ∷ xs) = omega (arith, length-take_or_all n xs)

length-resize : (n : ℕ) (xs : List ℕ) → length (resize n xs) ≡ n
length-resize n xs =
    length-append (take n xs) (replicate (n - length xs) 0)
    ∙ ap (λ k. length (take n xs) + k) (length-replicate (n - length xs) 0)
    ∙ length-take_or_all n xs

length-set : (xs : List ℕ) (i v : ℕ) → length (set xs i v) ≡ length xs
length-set [] i v = refl
length-set (x ∷ xs) zero v = refl
length-set (x ∷ xs) (suc i) v = ap suc (length-set xs i v)

length-write_bytes :
    (xs : List ℕ) (at : ℕ) (bs : List ℕ) → length (write_bytes xs at bs) ≡ length xs
length-write_bytes xs at [] = refl
length-write_bytes xs at (b ∷ bs) =
    length-write_bytes (set xs at b) (suc at) bs ∙ length-set xs at b

-- For a length within the limit the buffer has room for the four bytes of the length and the body.
pub read_body-length :
    (host : Host) (now : ℕ) (s : Session)
    → s.packet_length ≤ max_packet_size
    → length ((read_body host now s).packet_buffer) ≡ s.packet_length + packet_length
unfolding read_body
read_body-length host now s fits =
    length-write_bytes (resize (u32 (s.packet_length + packet_length)) s.packet_buffer) 0
      (store32 host (htonl host s.packet_length))
    ∙ length-resize (u32 (s.packet_length + packet_length)) s.packet_buffer
    ∙ omega arith

-- ===== src/Auth/Handler/Unreached.antt =====
-- No packet that the constructor accepts reaches the login: its type is never `Auth`, and it has no
-- sub header `Action`.
use scalable_tcp_server.Base.{
  ℕ, ◌+◌, ◌≡◌, ◌≢◌, refl, List, [], ◌∷◌, All, none, false, Outcome, done, arith,
}
use scalable_tcp_server.Word.{Host, IsByte}
use scalable_tcp_server.Packet.{
  Packet, PacketType, SubHeader, SubHeaderType, same_type, same_sub_header,
}
use scalable_tcp_server.Packet.Codes.{packet_type_from_byte-ne-auth, sub_header_from_byte-ne-action}
use scalable_tcp_server.Packet.Parse.{parse}
use scalable_tcp_server.Packet.Parse.Tiles.{Tiles}
use scalable_tcp_server.Packet.Parse.Shape.{IsReadAs, parse-done_iff}
use scalable_tcp_server.Packet.Lookup.{find_uint8, sub_header_get_uint8}
use scalable_tcp_server.Auth.{LoginRequest}
use scalable_tcp_server.Auth.Handler.{handle, route}
use mathlib.Core.Path.{sym, ◌∙◌}

not_action :
    (t : SubHeaderType) → t ≢ SubHeaderType.action → same_sub_header t SubHeaderType.action ≡ false
not_action SubHeaderType.action h = absurd (h refl)
not_action SubHeaderType.unknown h = refl
not_action SubHeaderType.session_id h = refl
not_action SubHeaderType.user_id h = refl
not_action SubHeaderType.auth_token h = refl

not_auth : (t : PacketType) → t ≢ PacketType.auth → same_type t PacketType.auth ≡ false
not_auth PacketType.auth h = absurd (h refl)
not_auth PacketType.unknown h = refl
not_auth PacketType.account h = refl
not_auth PacketType.text h = refl
not_auth PacketType.file h = refl
not_auth PacketType.video h = refl

find_action :
    (host : Host) (bytes buffer : List ℕ) (header_size count : ℕ) (ss : List SubHeader)
    → Tiles host bytes header_size count ss
    → find_uint8 buffer SubHeaderType.action ss ≡ done none
unfolding find_uint8
find_action host bytes buffer header_size count [] h = refl
find_action host bytes buffer header_size count (s ∷ ss) (here, after) = ground (
  arith,
  not_action s.type (λ e. sub_header_from_byte-ne-action here.type_byte (here.type_lem ∙ e)),
  find_action host bytes buffer header_size (count + 3 + s.size) ss after,
)

module _ (deserialize : List ℕ → Outcome LoginRequest) (host : Host) (bytes : List ℕ)
    (p : Packet) where
  handle-eq_none : IsReadAs host bytes p → handle deserialize p ≡ done none
  unfolding handle sub_header_get_uint8
  handle-eq_none q =
      rw (find_action host bytes p.buffer p.header_size 0 p.headers q.headers_tile) refl

  -- The router spawns no login for any packet that the constructor made from bytes, and neither would
  -- the handler if the router called it.
  pub route-eq_none :
      All IsByte bytes
      → parse host bytes ≡ done p
      → (route deserialize p ≡ done none) × (handle deserialize p ≡ done none)
  unfolding route
  route-eq_none are_bytes e =
      let (_, q) = (parse-done_iff host bytes are_bytes p).0 e in
      let type_ne = packet_type_from_byte-ne-auth q.type_byte in
      let no_login = handle-eq_none q in
      (rw (not_auth p.packet_type (λ a. type_ne.0 (sym q.type_lem ∙ a))) refl, no_login)

-- ===== src/Auth/Runs.antt =====
-- Concrete packets and logins, and the theorems on authentication at concrete inputs.
use scalable_tcp_server.Base.{
  ℕ, ◌≡◌, ◌⊎◌, refl, true, Bool, List, [], ◌∷◌, none, Outcome, done, arith, ◌||◌, ltb, length,
  if◌then◌else◌,
}
use scalable_tcp_server.Word.{little, load16, load32, ntohs, ntohl}
use scalable_tcp_server.Packet.{
  Packet, PacketType, byte_at, read16, read32, packet_version_from_byte, packet_type_from_byte,
  packet_flags_from_bytes,
}
use scalable_tcp_server.Packet.Parse.{parse, parse_sub_headers, sub_headers_loop}
use scalable_tcp_server.Packet.RoundTrip.{received}
use scalable_tcp_server.Validation.{
  is_valid_user_id, all_chars, is_user_id_char, is_valid_user_id_length, is_valid_password_length,
}
use scalable_tcp_server.Auth.{LoginRequest}
use scalable_tcp_server.Auth.Handler.{handle, route}
use scalable_tcp_server.Auth.Handler.Unreached.{route-eq_none}
use scalable_tcp_server.Auth.Statement.{Statement, select, insert}
use scalable_tcp_server.Auth.Service.{session_id_literal, login}
use scalable_tcp_server.Auth.Service.Guards.{IsServed, login-done, login-executes}

-- An archive that holds a user id alone.
abbrev archive : List ℕ → Outcome LoginRequest
archive bytes = done (record { user_id = bytes; password = [] })

-- A packet whose type byte is 1, the value of `PacketType::Auth`.
abbrev type_one : List ℕ
type_one = 0 ∷ 0 ∷ 0 ∷ 14 ∷ 1 ∷ 1 ∷ 0 ∷ 0 ∷ 0 ∷ 0 ∷ 0 ∷ 0 ∷ 0 ∷ 1 ∷ []

abbrev type_one_packet : Packet
type_one_packet = received PacketType.text 1 0 [] [] type_one

parse-type_one : parse little type_one ≡ done type_one_packet
unfolding parse parse_sub_headers sub_headers_loop byte_at read16 read32 load16 load32 ntohs ntohl
    packet_version_from_byte packet_type_from_byte packet_flags_from_bytes
parse-type_one = refl

route-eq_none_example :
    (route archive type_one_packet ≡ done none) × (handle archive type_one_packet ≡ done none)
route-eq_none_example =
    route-eq_none archive little type_one type_one_packet (omega arith) parse-type_one

-- A database that answers that rows came back.
abbrev database : Statement → Outcome Bool
database statement = done true

abbrev malformed : LoginRequest
malformed = record {
  user_id = b'a' ∷ b' ' ∷ b'b' ∷ b'c' ∷ [];
  password = 1 ∷ 2 ∷ 3 ∷ 4 ∷ 5 ∷ 6 ∷ [];
}

abbrev well_formed : LoginRequest
well_formed = record {
  user_id = b'a' ∷ b'_' ∷ b'b' ∷ b'c' ∷ [];
  password = 1 ∷ 2 ∷ 3 ∷ 4 ∷ 5 ∷ 6 ∷ [];
}

malformed-IsServed : IsServed malformed
unfolding is_valid_user_id all_chars is_user_id_char
malformed-IsServed = record { malformed = refl; long_id = omega arith; long_password = omega arith }

abbrev served : List Statement
served =
    select malformed.user_id malformed.password
    ∷ insert session_id_literal malformed.user_id []
    ∷ []

login-served : login (done tt) database [] malformed [] ≡ done (tt, served)
unfolding login is_valid_user_id all_chars is_user_id_char is_valid_user_id_length
    is_valid_password_length
login-served = refl

-- The well-formed user id is not looked up.
login-nothing : login (done tt) database [] well_formed [] ≡ done (tt, [])
unfolding login is_valid_user_id all_chars is_user_id_char
login-nothing = refl

login-executes_example :
    login (done tt) database [] malformed []
    ≡ done (
      tt,
      if is_valid_user_id malformed.user_id
            || ltb (length malformed.user_id) 4
            || ltb (length malformed.password) 6
          then []
          else select malformed.user_id malformed.password
            ∷ (if true then insert session_id_literal malformed.user_id [] ∷ [] else []),
    )
login-executes_example = login-executes (done tt) database [] malformed refl refl refl

login-done_example :
    (served ≡ [])
    ⊎ (IsServed malformed
        × ((served ≡ select malformed.user_id malformed.password ∷ [])
            ⊎ (served
                ≡ select malformed.user_id malformed.password
                  ∷ insert session_id_literal malformed.user_id []
                  ∷ [])))
login-done_example = login-done (done tt) database [] malformed served login-served

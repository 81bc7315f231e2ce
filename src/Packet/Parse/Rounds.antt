-- ===== src/Packet/Parse/Rounds.antt =====
-- One round of the loop in `parseSubHeaders`.
use scalable_tcp_server.Base.{
  ℕ, ◌+◌, ◌^◌, ◌≤◌, ◌<◌, ◌≡◌, List, length, All, Outcome, done, IsDefined, arith,
}
use scalable_tcp_server.Word.{Host, IsByte, u16}
use scalable_tcp_server.Packet.{SubHeader, byte_at, read16, max_header_size, offset_headers}
use scalable_tcp_server.Packet.Parse.{sub_header_at}
use scalable_tcp_server.Packet.Parse.Reads.{byte_at-done, read16-done}
use scalable_tcp_server.Packet.Parse.Tiles.{StandsAt}
use native.Mathlib.Decide.{dec_lt}

-- What one round of the loop does: it fails, or takes the sub header that stands at `count`.
pub record Advances (host : Host) (buffer : List ℕ) (header_size count : ℕ) (r : SubHeader × ℕ)
    : Type 0 where
  pub entry : StandsAt host buffer count r.0
  pub moved : r.1 ≡ count + 3 + r.0.size
  pub within : r.1 ≤ header_size

abbrev pub Steps : Host → List ℕ → ℕ → ℕ → Outcome (SubHeader × ℕ) → Type 0
Steps host buffer header_size count o =
    IsDefined o × ((r : SubHeader × ℕ) → o ≡ done r → Advances host buffer header_size count r)

module _ (host : Host) (buffer : List ℕ) (bytes : All IsByte buffer) (header_size : ℕ)
    (small : header_size ≤ max_header_size)
    (room : offset_headers + header_size ≤ length buffer) where
  no_size :
      (count : ℕ)
      → count < header_size
      → header_size < count + 2
      → Steps host buffer header_size count (sub_header_at host buffer header_size count)
  unfolding sub_header_at
  no_size count lt few = ground arith

  no_type :
      (count v : ℕ)
      → header_size ≡ count + 2
      → read16 host buffer (offset_headers + count) ≡ done v
      → Steps host buffer header_size count (sub_header_at host buffer header_size count)
  unfolding sub_header_at
  no_type count v few e = ground arith

  full :
      (count v t : ℕ)
      → count + 3 ≤ header_size
      → v < 2 ^ 16
      → read16 host buffer (offset_headers + count) ≡ done v
      → byte_at buffer (offset_headers + (count + 2)) ≡ done t
      → IsDefined (sub_header_at host buffer header_size count)
  unfolding sub_header_at
  full count v t few lt e et = ground (arith, mod_id)
    where
      mod_id : u16 (count + 2) ≡ count + 2
      mod_id = omega arith

  full_Advances :
      (count v t : ℕ)
      → count + 3 ≤ header_size
      → v < 2 ^ 16
      → read16 host buffer (offset_headers + count) ≡ done v
      → byte_at buffer (offset_headers + (count + 2)) ≡ done t
      → (r : SubHeader × ℕ) → sub_header_at host buffer header_size count ≡ done r
      → Advances host buffer header_size count r
  unfolding sub_header_at
  full_Advances count v t few lt e et r h = record {
    entry = record {
      size_read = ground (arith, mod_id);
      size_fits = ground (arith, mod_id);
      type_byte = t;
      type_read = et;
      type_lem = ground (arith, mod_id);
      known = ground (arith, mod_id);
      value_at = ground (arith, mod_id);
      value_whole = ground (arith, mod_id);
    };
    moved = ground (arith, mod_id);
    within = ground (arith, mod_id);
  }
    where
      mod_id : u16 (count + 2) ≡ count + 2
      mod_id = omega arith

  pub sub_header_at-Steps :
      (count : ℕ)
      → count < header_size
      → Steps host buffer header_size count (sub_header_at host buffer header_size count)
  sub_header_at-Steps count lt = elim (dec_lt header_size (count + 2)) [
    | yes few ↦ no_size count lt few
    | no enough ↦
        let (v, ev, lv) = read16-done buffer bytes host (offset_headers + count) (omega arith) in
        elim (dec_lt (count + 2) header_size) [
          | no few ↦ no_type count v (omega arith) ev
          | yes more ↦
              let (t, et, _) =
                byte_at-done buffer bytes (offset_headers + (count + 2)) (omega arith) in
              (
                full count v t (omega arith) lv ev et,
                full_Advances count v t (omega arith) lv ev et,
              )
        ]
  ]

  -- The other way round: what stands at `count` is what the round returns.
  pub sub_header_at-done :
      (count : ℕ) (s : SubHeader)
      → StandsAt host buffer count s
      → count + 3 + s.size ≤ header_size
      → sub_header_at host buffer header_size count ≡ done (s, count + 3 + s.size)
  unfolding sub_header_at
  sub_header_at-done count s here fits = ground (arith, mod_id)
    where
      mod_id : u16 (count + 2) ≡ count + 2
      mod_id = omega arith

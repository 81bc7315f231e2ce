-- ===== src/Packet/Parse/Safety.antt =====
-- Parsing stays inside the buffer and ends, whatever the bytes are, and it finds the sub headers
-- that tile the header area.
use scalable_tcp_server.Base.{
  ℕ, zero, suc, ◌+◌, ◌≤◌, ◌≡◌, List, [], ◌∷◌, ◌++◌, append_assoc, length, All, ltb, Bool-cases, inl,
  inr, done, IsDefined, >>=-IsDefined, >>=-eq-done, arith, ltb→lt, lt→ltb, append-nil, ◌↔◌, ap, ◌∙◌,
}
use scalable_tcp_server.Word.{Host, IsByte}
use scalable_tcp_server.Packet.{SubHeader, max_header_size, offset_headers}
use scalable_tcp_server.Packet.Parse.{sub_header_at, sub_headers_loop, parse_sub_headers}
use scalable_tcp_server.Packet.Parse.Tiles.{Tiles}
use scalable_tcp_server.Packet.Parse.Rounds.{sub_header_at-Steps, sub_header_at-done}

module _ (host : Host) (buffer : List ℕ) (bytes : All IsByte buffer) (header_size : ℕ)
    (small : header_size ≤ max_header_size)
    (room : offset_headers + header_size ≤ length buffer) where
  loop-IsDefined :
      (fuel count : ℕ) (headers : List SubHeader)
      → header_size ≤ fuel + count
      → IsDefined (sub_headers_loop host buffer header_size fuel count headers)
  unfolding sub_headers_loop
  loop-IsDefined zero count headers enough = ground arith
  loop-IsDefined (suc fuel) count headers enough = elim (Bool-cases (ltb count header_size)) [
    | inr over ↦ rw over tt
    | inl more ↦
        let (defined, advance) =
          sub_header_at-Steps host buffer bytes header_size small room count (ltb→lt _ _ more) in
        rw more (
          >>=-IsDefined (sub_header_at host buffer header_size count) _ defined λ (sub, next) e.
            let a = advance (sub, next) e in
            loop-IsDefined fuel next (headers ++ sub ∷ []) (omega arith))
  ]

  loop-Tiles :
      (fuel count : ℕ) (headers out : List SubHeader) (last : ℕ)
      → count ≤ header_size
      → sub_headers_loop host buffer header_size fuel count headers ≡ done (out, last)
      → (found : List SubHeader) × (out ≡ headers ++ found)
        × Tiles host buffer header_size count found
        × (last ≡ header_size)
  unfolding sub_headers_loop
  loop-Tiles zero count headers out last le e =
      ([], rw append-nil (ground arith), ground arith, ground arith)
  loop-Tiles (suc fuel) count headers out last le e = elim (Bool-cases (ltb count header_size)) [
    | inr over ↦ ([], rw append-nil (ground arith), ground arith, ground arith)
    | inl more ↦
        let (defined, advance) =
          sub_header_at-Steps host buffer bytes header_size small room count (ltb→lt _ _ more) in
        let ((sub, next), es, rest) =
          >>=-eq-done (sub_header_at host buffer header_size count) _ (rw more at e) in
        let a = advance (sub, next) es in
        let (found, eo, tiles, el) =
          loop-Tiles fuel next (headers ++ sub ∷ []) out last a.within rest in
        (
          sub ∷ found,
          eo ∙ append_assoc headers (sub ∷ []) found,
          (a.entry, rw a.moved at tiles),
          el,
        )
  ]

  Tiles-le :
      (count : ℕ) (found : List SubHeader)
      → Tiles host buffer header_size count found
      → count ≤ header_size
  Tiles-le count [] h = omega arith
  Tiles-le count (s ∷ ss) (here, after) = omega (arith, Tiles-le (count + 3 + s.size) ss after)

  loop-done :
      (found : List SubHeader) (fuel count : ℕ) (headers : List SubHeader)
      → header_size ≤ fuel + count
      → Tiles host buffer header_size count found
      → sub_headers_loop host buffer header_size fuel count headers
        ≡ done (headers ++ found, header_size)
  unfolding sub_headers_loop
  loop-done [] zero count headers enough h = rw append-nil (ground arith)
  loop-done [] (suc fuel) count headers enough h = rw append-nil (ground arith)
  loop-done (s ∷ ss) zero count headers enough (here, after) =
      absurd (omega (arith, Tiles-le (count + 3 + s.size) ss after))
  loop-done (s ∷ ss) (suc fuel) count headers enough (here, after) =
      let le = Tiles-le (count + 3 + s.size) ss after in
      rw
        (
          lt→ltb count header_size (omega arith),
          sub_header_at-done host buffer bytes header_size small room count s here le,
        )
        (loop-done ss fuel (count + 3 + s.size) (headers ++ s ∷ []) (omega arith) after
          ∙ ap (λ hs. done (hs, header_size)) (append_assoc headers (s ∷ []) ss))

  -- For a header area within the limit that lies in the buffer, the parser returns `found` exactly if
  -- `found` lists sub headers of known types that fill the area without a gap.
  pub parse_sub_headers-done_iff :
      (found : List SubHeader)
      → (parse_sub_headers host buffer header_size ≡ done found)
        ↔ Tiles host buffer header_size 0 found
  unfolding parse_sub_headers
  parse_sub_headers-done_iff found = (
    (λ e.
        let ((out, last), el, rest) =
          >>=-eq-done (sub_headers_loop host buffer header_size header_size 0 []) _ e in
        let (new, eo, tiles, _) = loop-Tiles header_size 0 [] out last (omega arith) el in
        let same : new ≡ found = ground arith in rw same at tiles),
    λ tiles. rw (loop-done found header_size 0 [] (omega arith) tiles) (ground arith),
  )

  -- Parsing the header area ends, and never reads outside the buffer.
  pub parse_sub_headers-IsDefined : IsDefined (parse_sub_headers host buffer header_size)
  unfolding parse_sub_headers
  parse_sub_headers-IsDefined =
      >>=-IsDefined (sub_headers_loop host buffer header_size header_size 0 []) _
        (loop-IsDefined header_size 0 [] (omega arith)) λ (out, last) _. ground arith

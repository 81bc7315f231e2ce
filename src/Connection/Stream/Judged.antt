-- ===== src/Connection/Stream/Judged.antt =====
-- What becomes of the bytes that a client sends, whatever they are, said of the bytes alone.
use scalable_tcp_server.Base.{
  ℕ, zero, suc, ◌≤◌, ◌<◌, ◌≡◌, refl, ap, sym, List, [], ◌∷◌, ◌++◌, length, length-take, length-drop,
  take, drop, take-append-drop, All, Outcome, done, throws, Exception, IsDefined, fault, stuck,
  arith,
}
use native.Mathlib.Decide.{dec_lt}
use scalable_tcp_server.Word.{Host, IsByte}
use scalable_tcp_server.Packet.{Packet, max_packet_size}
use scalable_tcp_server.Packet.Parse.{parse}
use scalable_tcp_server.Packet.Parse.Guards.{parse-IsDefined}
use scalable_tcp_server.Connection.Reader.Frames.{announced}

pub data Verdict : Type 0 where
  waits stops : Verdict
  refuses : Exception → Verdict

-- A frame is a length in network order, and as many bytes. A stream is read frame by frame, each a
-- packet that the constructor takes; it ends in the middle of a frame, in a length above the limit, or
-- in a frame that the constructor refuses.
pub data Judged (host : Host) (v : Verdict) : List ℕ → Type 0 where
  few : {bytes : List ℕ} → length bytes < 4 → v ≡ waits → Judged host v bytes
  too_long :
      {bytes : List ℕ} (a b c d : ℕ) (rest : List ℕ)
      → bytes ≡ a ∷ b ∷ c ∷ d ∷ rest
      → max_packet_size < announced a b c d
      → v ≡ stops
      → Judged host v bytes
  in_part :
      {bytes : List ℕ} (a b c d : ℕ) (rest : List ℕ)
      → bytes ≡ a ∷ b ∷ c ∷ d ∷ rest
      → announced a b c d ≤ max_packet_size
      → length rest < announced a b c d
      → v ≡ waits
      → Judged host v bytes
  refused :
      {bytes : List ℕ} (a b c d : ℕ) (body rest : List ℕ) (e : Exception)
      → bytes ≡ a ∷ b ∷ c ∷ d ∷ (body ++ rest)
      → announced a b c d ≤ max_packet_size
      → length body ≡ announced a b c d
      → parse host (a ∷ b ∷ c ∷ d ∷ body) ≡ throws e
      → v ≡ refuses e
      → Judged host v bytes
  taken :
      {bytes : List ℕ} (a b c d : ℕ) (body rest : List ℕ) (p : Packet)
      → bytes ≡ a ∷ b ∷ c ∷ d ∷ (body ++ rest)
      → announced a b c d ≤ max_packet_size
      → length body ≡ announced a b c d
      → parse host (a ∷ b ∷ c ∷ d ∷ body) ≡ done p
      → Judged host v rest
      → Judged host v bytes

All-take {ℓ} : (P : ℕ → Type ℓ) (n : ℕ) (xs : List ℕ) → All P xs → All P (take n xs)
All-take P zero xs h = tt
All-take P (suc n) [] h = tt
All-take P (suc n) (x ∷ xs) (hx, h) = (hx, All-take P n xs h)

All-drop {ℓ} : (P : ℕ → Type ℓ) (n : ℕ) (xs : List ℕ) → All P xs → All P (drop n xs)
All-drop P zero xs h = h
All-drop P (suc n) [] h = tt
All-drop P (suc n) (x ∷ xs) (hx, h) = All-drop P n xs h

-- Every stream has a verdict.
pub judged :
    (host : Host) (bound : ℕ) (bytes : List ℕ)
    → length bytes ≤ bound
    → All IsByte bytes
    → (v : Verdict) × Judged host v bytes
judged host bound [] h are = (waits, few (omega arith) refl)
judged host bound (a ∷ []) h are = (waits, few (omega arith) refl)
judged host bound (a ∷ b ∷ []) h are = (waits, few (omega arith) refl)
judged host bound (a ∷ b ∷ c ∷ []) h are = (waits, few (omega arith) refl)
judged host zero (a ∷ b ∷ c ∷ d ∷ rest) h are = absurd (omega arith)
judged host (suc bound) (a ∷ b ∷ c ∷ d ∷ rest) h (ha, (hb, (hc, (hd, are)))) =
    let n = announced a b c d in
    let later =
      judged host bound (drop n rest) (omega (arith, length-drop n rest))
        (All-drop IsByte n rest are) in
    elim (dec_lt max_packet_size n) [
      | yes long ↦ (stops, too_long a b c d rest refl long refl)
      | no fits ↦ elim (dec_lt (length rest) n) [
        | yes short ↦ (waits, in_part a b c d rest refl (omega arith) short refl)
        | no whole ↦
            by_parse (parse host (a ∷ b ∷ c ∷ d ∷ take n rest)) refl
              (parse-IsDefined host (a ∷ b ∷ c ∷ d ∷ take n rest)
                (ha, (hb, (hc, (hd, All-take IsByte n rest are)))))
              (omega arith) (omega arith) later
      ]
    ]
  where
    by_parse :
        (o : Outcome Packet)
        → parse host (a ∷ b ∷ c ∷ d ∷ take (announced a b c d) rest) ≡ o
        → IsDefined o
        → announced a b c d ≤ max_packet_size
        → announced a b c d ≤ length rest
        → (v : Verdict) × Judged host v (drop (announced a b c d) rest)
        → (v : Verdict) × Judged host v (a ∷ b ∷ c ∷ d ∷ rest)
    by_parse (done p) e ok fits whole (v, j) = (
      v,
      taken a b c d (take (announced a b c d) rest) (drop (announced a b c d) rest) p
          (ap (λ r. a ∷ b ∷ c ∷ d ∷ r) (sym (take-append-drop (announced a b c d) rest))) fits
          (length-take (announced a b c d) rest whole) e j,
    )
    by_parse (throws x) e ok fits whole (v, j) = (
      refuses x,
      refused a b c d (take (announced a b c d) rest) (drop (announced a b c d) rest) x
          (ap (λ r. a ∷ b ∷ c ∷ d ∷ r) (sym (take-append-drop (announced a b c d) rest))) fits
          (length-take (announced a b c d) rest whole) e refl,
    )
    by_parse fault e ok fits whole later = absurd ok
    by_parse stuck e ok fits whole later = absurd ok

-- ===== src/Connection/Stream/Rounds.antt =====
-- The rounds in which a stream is read.
use scalable_tcp_server.Base.{
  ℕ, zero, suc, ◌<◌, ◌≡◌, refl, sym, ap, ◌∙◌, false, lt→leb, le→leb, List, [], ◌∷◌, ◌++◌, length,
  length-append, take, drop, none, some, Outcome, done, throws, fault, stuck, ◌>>=◌, arith,
}
use scalable_tcp_server.Word.{Host, IsByte, load32}
use scalable_tcp_server.Auth.{LoginRequest}
use scalable_tcp_server.Connection.{Session, success}
use scalable_tcp_server.Connection.Reader.Frames.{announced}
use scalable_tcp_server.Connection.Events.{length_read, body_read, step}
use scalable_tcp_server.Connection.Stream.{
  leaving, go_on, read_four, read_announced, read_pending, serve,
}
use scalable_tcp_server.Connection.Stream.Frame.{IsWaiting, listening}

take-append {ℓ} : {A : Type ℓ} (n : ℕ) (xs ys : List A) → n ≡ length xs → take n (xs ++ ys) ≡ xs
take-append zero [] ys e = refl
take-append zero (x ∷ xs) ys e = absurd (omega arith)
take-append (suc n) [] ys e = absurd (omega arith)
take-append (suc n) (x ∷ xs) ys e = ap (λ r. x ∷ r) (take-append n xs ys (omega arith))

drop-append {ℓ} : {A : Type ℓ} (n : ℕ) (xs ys : List A) → n ≡ length xs → drop n (xs ++ ys) ≡ ys
drop-append zero [] ys e = refl
drop-append zero (x ∷ xs) ys e = absurd (omega arith)
drop-append (suc n) [] ys e = absurd (omega arith)
drop-append (suc n) (x ∷ xs) ys e = drop-append n xs ys (omega arith)

module _ (host : Host) (deserialize : List ℕ → Outcome LoginRequest) (now : ℕ) where
  pub serve-none :
      (fuel : ℕ) (unread : List ℕ) (s : Session)
      → read_pending host deserialize now unread s ≡ none
      → serve host deserialize now (suc fuel) unread s ≡ done (s, unread)
  unfolding serve
  serve-none fuel unread s e = ap (go_on (serve host deserialize now fuel) (s, unread)) e

  pub serve-some :
      (fuel : ℕ) (unread rest : List ℕ) (s : Session) (o : Outcome Session)
      → read_pending host deserialize now unread s ≡ some (o >>= leaving rest)
      → serve host deserialize now (suc fuel) unread s
        ≡ (o >>= λ t. serve host deserialize now fuel rest t)
  unfolding serve
  serve-some fuel unread rest s o e =
      ap (go_on (serve host deserialize now fuel) (s, unread)) e ∙ by_outcome o
    where
      by_outcome :
          (o : Outcome Session)
          → ((o >>= leaving rest) >>= λ (t, r). serve host deserialize now fuel r t)
            ≡ (o >>= λ t. serve host deserialize now fuel rest t)
      by_outcome (done t) = refl
      by_outcome (throws e) = refl
      by_outcome fault = refl
      by_outcome stuck = refl

  pub closed-none :
      (unread : List ℕ) (s : Session)
      → s.is_open ≡ false
      → read_pending host deserialize now unread s ≡ none
  unfolding read_pending
  closed-none unread s shut = rw shut refl

  few-none :
      (unread : List ℕ) (s : Session)
      → length unread < 4
      → read_four host deserialize now unread s ≡ none
  unfolding read_four
  few-none [] s h = refl
  few-none (a ∷ []) s h = refl
  few-none (a ∷ b ∷ []) s h = refl
  few-none (a ∷ b ∷ c ∷ []) s h = refl
  few-none (a ∷ b ∷ c ∷ d ∷ rest) s h = absurd (omega arith)

  -- A session that waits for a length reads four bytes.
  reads_four :
      (unread : List ℕ) (s : Session)
      → IsWaiting s
      → read_pending host deserialize now unread s ≡ read_four host deserialize now unread s
  unfolding read_pending
  reads_four unread s v = rw (v.open_lem, v.one_length) refl

  pub waits_for_length :
      (unread : List ℕ) (s : Session)
      → IsWaiting s
      → length unread < 4
      → read_pending host deserialize now unread s ≡ none
  waits_for_length unread s v h = reads_four unread s v ∙ few-none unread s h

  pub takes_length :
      (a b c d : ℕ) (rest : List ℕ) (s : Session)
      → IsWaiting s
      → read_pending host deserialize now (a ∷ b ∷ c ∷ d ∷ rest) s
        ≡ some (
            step host deserialize now (length_read success (load32 host a b c d)) s
            >>= leaving rest)
  unfolding read_four
  takes_length a b c d rest s v = reads_four (a ∷ b ∷ c ∷ d ∷ rest) s v

  module _ (a b c d : ℕ) (ha : IsByte a) (hb : IsByte b) (hc : IsByte c) (hd : IsByte d)
      (s : Session) (v : IsWaiting s) where
    abbrev body_awaited : Session
    body_awaited = listening host deserialize now a b c d ha hb hc hd s v

    reads_announced :
        (unread : List ℕ)
        → read_pending host deserialize now unread body_awaited
          ≡ read_announced host deserialize now unread body_awaited
    unfolding read_pending
    reads_announced unread = rw (v.open_lem, v.one_length, v.no_body) refl

    pub waits_for_body :
        (unread : List ℕ)
        → length unread < announced a b c d
        → read_pending host deserialize now unread body_awaited ≡ none
    unfolding read_announced
    waits_for_body unread h =
        reads_announced unread ∙ rw (lt→leb (announced a b c d) (length unread) h) refl

    pub takes_body :
        (body rest : List ℕ)
        → length body ≡ announced a b c d
        → read_pending host deserialize now (body ++ rest) body_awaited
          ≡ some (step host deserialize now (body_read success body) body_awaited >>= leaving rest)
    unfolding read_announced
    takes_body body rest e =
        reads_announced (body ++ rest)
        ∙ rw
            (
              le→leb (announced a b c d) (length (body ++ rest))
                  (omega (arith, length-append body rest, e)),
              take-append (announced a b c d) body rest (sym e),
              drop-append (announced a b c d) body rest (sym e),
            )
            refl

-- ===== src/Connection/Stream/Ends.antt =====
-- A session reads a stream as the verdict on its bytes says.
use scalable_tcp_server.Base.{
  ℕ, zero, suc, ◌+◌, ◌≤◌, ◌<◌, ◌≡◌, refl, ap, ◌∙◌, true, false, List, ◌∷◌, ◌++◌, length,
  length-append, All-append_split, All, Outcome, done, throws, ◌>>=◌, arith,
}
use mathlib.Core.Path.{subst}
use scalable_tcp_server.Word.{Host, IsByte, load32}
use scalable_tcp_server.Packet.{max_packet_size}
use scalable_tcp_server.Auth.{LoginRequest}
use scalable_tcp_server.Connection.{Session, success}
use scalable_tcp_server.Connection.Reader.Frames.{announced}
use scalable_tcp_server.Connection.Reader.{read_length}
use scalable_tcp_server.Connection.Events.{length_read, body_read, step}
use scalable_tcp_server.Connection.Stream.{Served, serve}
use scalable_tcp_server.Connection.Stream.Judged.{
  Verdict, waits, stops, refuses, Judged, few, too_long, in_part, refused, taken,
}
use scalable_tcp_server.Connection.Stream.Frame.{
  IsWaiting, listening, answered, step-length, step-too_long, step-body, step-refused,
}
use scalable_tcp_server.Connection.Stream.Rounds.{
  serve-none, serve-some, closed-none, waits_for_length, takes_length, waits_for_body, takes_body,
}

abbrev pub Same : Session → Session → Type 0
Same s t =
    (t.logins ≡ s.logins)
    × (t.transmitted ≡ s.transmitted)
    × (t.queue_buffer ≡ s.queue_buffer)
    × (t.idle_timer ≡ s.idle_timer)

-- What is left of a session that read: it goes on reading, it was stopped, or its handler threw.
abbrev pub Ends : Verdict → Session → Outcome Served → Type 0
Ends waits s o =
    (t : Session) × (rest : List ℕ) × (o ≡ done (t, rest)) × (t.is_open ≡ true) × Same s t
Ends stops s o =
    (t : Session) × (rest : List ℕ) × (o ≡ done (t, rest))
    × (t.is_open ≡ false)
    × (t.on_close_calls ≡ s.on_close_calls + 1)
Ends (refuses e) s o = o ≡ throws e

module _ (host : Host) (deserialize : List ℕ → Outcome LoginRequest) (now : ℕ) where
  module _ (a b c d : ℕ) (ha : IsByte a) (hb : IsByte b) (hc : IsByte c) (hd : IsByte d)
      (s : Session) (w : IsWaiting s) where
    answered-IsWaiting : IsWaiting (answered host deserialize now a b c d ha hb hc hd s w)
    unfolding read_length
    answered-IsWaiting = record {
      open_lem = w.open_lem;
      alive = w.alive;
      going = w.going;
      held = w.held;
      one_length = omega (arith, w.one_length);
      no_body = omega (arith, w.no_body);
      clear = refl;
    }

    from_answered :
        (v : Verdict) (o : Outcome Served)
        → Ends v (answered host deserialize now a b c d ha hb hc hd s w) o
        → Ends v s o
    unfolding read_length
    from_answered waits o x = x
    from_answered stops o x = x
    from_answered (refuses e) o x = x

    -- A round for the length.
    after_length :
        (fuel : ℕ) (rest : List ℕ)
        → announced a b c d ≤ max_packet_size
        → serve host deserialize now (suc fuel) (a ∷ b ∷ c ∷ d ∷ rest) s
          ≡ serve host deserialize now fuel rest
              (listening host deserialize now a b c d ha hb hc hd s w)
    after_length fuel rest fits =
        serve-some host deserialize now fuel (a ∷ b ∷ c ∷ d ∷ rest) rest s
          (step host deserialize now (length_read success (load32 host a b c d)) s)
          (takes_length host deserialize now a b c d rest s w)
        ∙ ap (λ o. o >>= λ t. serve host deserialize now fuel rest t)
            (step-length host deserialize now a b c d ha hb hc hd s w fits)

    -- A round for the body.
    after_body :
        (fuel : ℕ) (body rest : List ℕ)
        → length body ≡ announced a b c d
        → serve host deserialize now
            (suc fuel)
            (body ++ rest)
            (listening host deserialize now a b c d ha hb hc hd s w)
          ≡ (step host deserialize now
                (body_read success body)
                (listening host deserialize now a b c d ha hb hc hd s w)
              >>= λ t. serve host deserialize now fuel rest t)
    after_body fuel body rest whole =
        serve-some host deserialize now fuel (body ++ rest) rest
          (listening host deserialize now a b c d ha hb hc hd s w)
          (step host deserialize now (body_read success body)
            (listening host deserialize now a b c d ha hb hc hd s w))
          (takes_body host deserialize now a b c d ha hb hc hd s w body rest whole)

  -- A length above the limit, or one whose body has not come.
  long_frame :
      (fuel a b c d : ℕ) (rest : List ℕ) (s : Session)
      → All IsByte (a ∷ b ∷ c ∷ d ∷ rest)
      → IsWaiting s
      → max_packet_size < announced a b c d
      → Ends stops s (serve host deserialize now (suc (suc fuel)) (a ∷ b ∷ c ∷ d ∷ rest) s)
  long_frame fuel a b c d rest s (ha, (hb, (hc, (hd, are)))) w long =
      let (t, et, shut, once) = step-too_long host deserialize now a b c d ha hb hc hd s w long in
      (
        t,
        rest,
        serve-some host deserialize now (suc fuel) (a ∷ b ∷ c ∷ d ∷ rest) rest s
              (step host deserialize now (length_read success (load32 host a b c d)) s)
              (takes_length host deserialize now a b c d rest s w)
            ∙ ap (λ o. o >>= λ t. serve host deserialize now (suc fuel) rest t) et
            ∙ serve-none host deserialize now fuel rest t
                (closed-none host deserialize now rest t shut),
        shut,
        once,
      )

  frame_in_part :
      (fuel a b c d : ℕ) (rest : List ℕ) (s : Session)
      → All IsByte (a ∷ b ∷ c ∷ d ∷ rest)
      → IsWaiting s
      → announced a b c d ≤ max_packet_size
      → length rest < announced a b c d
      → Ends waits s (serve host deserialize now (suc (suc fuel)) (a ∷ b ∷ c ∷ d ∷ rest) s)
  frame_in_part fuel a b c d rest s (ha, (hb, (hc, (hd, are)))) w fits short = (
    listening host deserialize now a b c d ha hb hc hd s w,
    rest,
    after_length a b c d ha hb hc hd s w (suc fuel) rest fits
        ∙ serve-none host deserialize now fuel rest
            (listening host deserialize now a b c d ha hb hc hd s w)
            (waits_for_body host deserialize now a b c d ha hb hc hd s w rest short),
    w.open_lem,
    (refl, refl, refl, refl),
  )

  -- A whole frame, up to what the session makes of its body.
  after_frame :
      (fuel a b c d : ℕ) (body rest : List ℕ) (s : Session) (ha : IsByte a) (hb : IsByte b)
      (hc : IsByte c) (hd : IsByte d) (w : IsWaiting s) (o : Outcome Session)
      → announced a b c d ≤ max_packet_size
      → length body ≡ announced a b c d
      → step host deserialize now
          (body_read success body)
          (listening host deserialize now a b c d ha hb hc hd s w)
        ≡ o
      → serve host deserialize now (suc (suc fuel)) (a ∷ b ∷ c ∷ d ∷ (body ++ rest)) s
        ≡ (o >>= λ t. serve host deserialize now fuel rest t)
  after_frame fuel a b c d body rest s ha hb hc hd w o fits whole eo =
      after_length a b c d ha hb hc hd s w (suc fuel) (body ++ rest) fits
      ∙ after_body a b c d ha hb hc hd s w fuel body rest whole
      ∙ ap (λ o. o >>= λ t. serve host deserialize now fuel rest t) eo

  pub serve-Judged :
      {v : Verdict} {bytes : List ℕ} (fuel : ℕ) (s : Session)
      → Judged host v bytes
      → All IsByte bytes
      → length bytes < fuel
      → IsWaiting s
      → Ends v s (serve host deserialize now fuel bytes s)
  serve-Judged zero s j are enough w = absurd (omega arith)
  serve-Judged {v} {bytes} (suc fuel) s (few short ev) are enough w = rw ev (
    s,
    bytes,
    serve-none host deserialize now fuel bytes s
        (waits_for_length host deserialize now bytes s w short),
    w.open_lem,
    (refl, refl, refl, refl),
  )
  serve-Judged (suc zero) s (too_long a b c d rest eb long ev) are enough w =
      absurd (omega (arith, ap length eb))
  serve-Judged (suc (suc fuel)) s (too_long a b c d rest eb long ev) are enough w =
      rw (ev, eb) (long_frame fuel a b c d rest s (subst (All IsByte) eb are) w long)
  serve-Judged (suc zero) s (in_part a b c d rest eb fits short ev) are enough w =
      absurd (omega (arith, ap length eb))
  serve-Judged (suc (suc fuel)) s (in_part a b c d rest eb fits short ev) are enough w =
      rw (ev, eb) (frame_in_part fuel a b c d rest s (subst (All IsByte) eb are) w fits short)
  serve-Judged (suc zero) s (refused a b c d body rest e eb fits whole ep ev) are enough w =
      absurd (omega (arith, ap length eb))
  serve-Judged (suc (suc fuel)) s (refused a b c d body rest e eb fits whole ep ev) are enough w =
      let (ha, (hb, (hc, (hd, more)))) = subst (All IsByte) eb are in
      let front = (All-append_split IsByte body rest more).0 in
      rw (ev, eb)
        (after_frame fuel a b c d body rest s ha hb hc hd w (throws e) fits whole
          (step-refused host deserialize now a b c d ha hb hc hd s w body front e ep))
  serve-Judged (suc zero) s (taken a b c d body rest p eb fits whole ep j) are enough w =
      absurd (omega (arith, ap length eb))
  serve-Judged {v} (suc (suc fuel)) s (taken a b c d body rest p eb fits whole ep j) are enough w =
      let (ha, (hb, (hc, (hd, more)))) = subst (All IsByte) eb are in
      let (front, back) = All-append_split IsByte body rest more in
      let t = answered host deserialize now a b c d ha hb hc hd s w in
      let later =
        serve-Judged fuel t j back (omega (arith, ap length eb, length-append body rest))
          (answered-IsWaiting a b c d ha hb hc hd s w) in
      rw
        (
          eb,
          after_frame fuel a b c d body rest s ha hb hc hd w (done t) fits whole
              (step-body host deserialize now a b c d ha hb hc hd s w body front p ep),
        )
        (from_answered a b c d ha hb hc hd s w v (serve host deserialize now fuel rest t) later)

-- ===== src/Server/Whole/Holds.antt =====
-- Which sessions the server holds, whatever happens.
use scalable_tcp_server.Base.{
  ℕ, ◌≤◌, ◌≡◌, ◌↔◌, refl, sym, ap, ◌∙◌, Bool, true, false, not, List, length, Option, none, some,
  Outcome, done, >>=-eq-done, arith,
}
use mathlib.Core.Path.{subst}
use scalable_tcp_server.Word.{Host}
use scalable_tcp_server.Auth.{LoginRequest}
use scalable_tcp_server.Connection.{Session}
use scalable_tcp_server.Connection.Events.{IsEnabled, start, Reach}
use scalable_tcp_server.Connection.Events as Strand
use scalable_tcp_server.Server.{Timeouts, stop, open_session}
use scalable_tcp_server.Server.Threads.Invariant.{contains, Distinct}
use scalable_tcp_server.Server.Whole.{
  Whole, continued, Event, accepted, completes, stops, run_strand, occur, CanOccur, Evolves, here,
  next,
}
use scalable_tcp_server.Server.Whole.Invariant.{IsWhole, alone, accepted-IsWhole, continued-IsWhole}

module _ (host : Host) (deserialize : List ℕ → Outcome LoginRequest) (owned : Bool) (t : Timeouts)
    (n : ℕ) where
  occur-IsWhole :
      (event : Event) (w u : Whole)
      → IsWhole host deserialize owned t n w
      → CanOccur host deserialize owned t event w
      → occur host deserialize owned t event w ≡ done u
      → IsWhole host deserialize owned t n u
  unfolding occur run_strand
  occur-IsWhole (accepted now a) w u v p e =
      accepted-IsWhole host deserialize owned t n now a w u v e
  occur-IsWhole (completes now i event) w u v (s, es, en) e =
      let ran : run_strand host deserialize owned t now i event (some s) w ≡ done u =
        ap (λ o. run_strand host deserialize owned t now i event o w) (sym es) ∙ e in
      let (s', e', same) =
        >>=-eq-done (Strand.step host deserialize now event s) (λ s'. done (continued i s w s'))
          ran in
      let u_lem : continued i s w s' ≡ u = cc in
      subst (IsWhole host deserialize owned t n) u_lem
        (continued-IsWhole host deserialize owned t n now i event s s' w v es en e')
  occur-IsWhole stops w u v p e =
      let same : record w { server = stop w.server } ≡ u = cc in
      subst (IsWhole host deserialize owned t n) same (
        unfold stop in
        record {
          counted = record { held = v.counted.held; capped = v.counted.capped };
          distinct = v.distinct;
          limited = v.limited;
          unmade = v.unmade;
          absent = v.absent;
          held = v.held;
          reached = v.reached;
        })

  Evolves-IsWhole :
      {w : Whole} → Evolves host deserialize owned t n w → IsWhole host deserialize owned t n w
  Evolves-IsWhole here = record {
    counted = record { held = omega arith; capped = omega arith };
    distinct = tt;
    limited = refl;
    unmade = λ i h. refl;
    absent = λ i h. refl;
    held = λ i s e. cc;
    reached = λ i s e. cc;
  }
  Evolves-IsWhole (next {w} {u} r event p e) = occur-IsWhole event w u (Evolves-IsWhole r) p e

  -- From a server that has accepted nobody and admits `n` sessions, in whatever order clients come, the
  -- operations of its sessions complete and it is stopped, with nothing between the start of a session
  -- and its insertion: it holds exactly those of the sessions that it made that have not been stopped,
  -- each once, and at most `n` of them; and every session is in a state that it reaches alone, from its
  -- own start.
  pub Evolves-holds :
      {w : Whole}
      → Evolves host deserialize owned t n w
      → ((i : ℕ)
          → (contains i w.server.sessions ≡ true)
            ↔ ((s : Session) × (w.client i ≡ some s) × (s.stopped ≡ false)))
        × Distinct w.server.sessions
        × (length w.server.sessions ≤ n)
        × ((i : ℕ) (s : Session)
            → w.client i ≡ some s
            → (now : ℕ) × (initial : Session) × (packets : List (List ℕ)) × (open_session owned now
                  t
                ≡ done initial)
              × Reach host deserialize initial packets s)
  Evolves-holds {w} r =
      let v = Evolves-IsWhole r in
      (
        λ i. (
          by_client i (w.client i) refl v,
          λ (s, es, h).
              let a = alone host deserialize owned t n w v i s es in
              v.held i s es ∙ a.held ∙ ap not h,
        ),
        v.distinct,
        omega (arith, v.counted.held, v.counted.capped, v.limited),
        v.reached,
      )
    where
      by_client :
          (i : ℕ) (o : Option Session)
          → w.client i ≡ o
          → IsWhole host deserialize owned t n w
          → contains i w.server.sessions ≡ true
          → (s : Session) × (w.client i ≡ some s) × (s.stopped ≡ false)
      by_client i none e v h = absurd (cc (v.absent i e))
      by_client i (some s) e v h =
          let a = alone host deserialize owned t n w v i s e in
          let there = v.held i s e in (s, e, ground (arith, a.held))

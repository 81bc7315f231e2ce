-- ===== src/Server/Whole/Invariant.antt =====
-- The sessions that the server holds are those that are not stopped, step by step.
use scalable_tcp_server.Base.{
  ℕ, ◌+◌, ◌≤◌, ◌≡◌, ◌≢◌, sym, ap, ◌∙◌, Bool, true, false, List, [], ◌++◌, none, some, Outcome, done,
  ◌>>=◌, inl, inr, arith,
}
use mathlib.Core.Path.{subst}
use scalable_tcp_server.Word.{Host}
use scalable_tcp_server.Auth.{LoginRequest}
use scalable_tcp_server.Connection.{Session}
use scalable_tcp_server.Connection.Lifecycle.{construct}
use scalable_tcp_server.Connection.Events.{IsEnabled, start, Reach}
use scalable_tcp_server.Connection.Events as Strand
use scalable_tcp_server.Connection.Events.Invariant as Session
use scalable_tcp_server.Connection.Events.Stays.{step_stays}
use scalable_tcp_server.Server.{
  Timeouts, Accepted, open_session, accepted as server_accepted, step as server_step,
}
use scalable_tcp_server.Server.Capacity as Capacity
use scalable_tcp_server.Server.Threads.Invariant.{contains, Distinct}
use scalable_tcp_server.Server.Whole.{Whole, accept_client, continued}
use scalable_tcp_server.Server.Whole.Same.{accept-server_done}
use scalable_tcp_server.Server.Whole.Accepts.{
  Accepts, refuses, admits, accept_client-Accepts, put_ne, put_none, put_cases,
}
use scalable_tcp_server.Server.Whole.Callback.{
  back_held, back_other, back-Distinct, back_unmade, back_made, back_limit, back_counted,
}

-- Of a server with its sessions: no session is held twice, the sessions are those that were made, the
-- server holds those that are not stopped, and no more than `max_sessions`, and every session is in a
-- state that it reaches alone.
pub record IsWhole (host : Host) (deserialize : List ℕ → Outcome LoginRequest) (owned : Bool)
    (t : Timeouts) (n : ℕ) (w : Whole) : Type 0 where
  pub counted : Capacity.Inv w.server
  pub distinct : Distinct w.server.sessions
  pub limited : w.server.max_sessions ≡ n
  pub unmade : (i : ℕ) → w.server.made ≤ i → w.client i ≡ none
  pub absent : (i : ℕ) → w.client i ≡ none → contains i w.server.sessions ≡ false
  pub held :
      (i : ℕ) (s : Session) → w.client i ≡ some s → contains i w.server.sessions ≡ s.in_sessions
  pub reached :
      (i : ℕ) (s : Session)
      → w.client i ≡ some s
      → (now : ℕ) × (initial : Session) × (packets : List (List ℕ)) × (open_session owned now t
          ≡ done initial)
        × Reach host deserialize initial packets s

opened :
    (owned : Bool) (t : Timeouts) (now : ℕ) (s : Session)
    → open_session owned now t ≡ done s
    → Session.Inv s × (s.in_sessions ≡ true)
unfolding open_session construct start
opened true t now s e = ground arith
opened false t now s e = cc

module _ (host : Host) (deserialize : List ℕ → Outcome LoginRequest) (owned : Bool) (t : Timeouts)
    (n : ℕ) where
  pub alone :
      (w : Whole)
      → IsWhole host deserialize owned t n w
      → (i : ℕ) (s : Session) → w.client i ≡ some s
      → Session.Inv s
  alone w v i s e =
      let (now, initial, packets, eo, r) = v.reached i s e in
      Session.Reach-keeps (opened owned t now initial eo).0 r

  pub accepted-IsWhole :
      (now : ℕ) (a : Accepted) (w u : Whole)
      → IsWhole host deserialize owned t n w
      → accept_client owned now t a w ≡ done u
      → IsWhole host deserialize owned t n u
  accepted-IsWhole now a w u v e = by_case (accept_client-Accepts owned t now a w u e)
    where
      counts : Capacity.Inv u.server
      counts = Capacity.step-Inv owned t (server_accepted now a) w.server u.server v.counted (
          unfold server_step in
          ap (λ o. o >>= λ (s', again). done s') (accept-server_done owned t now a w u e))

      limit : u.server.max_sessions ≡ n
      limit =
          Capacity.step-max_sessions owned t (server_accepted now a) w.server u.server (
            unfold server_step in
            ap (λ o. o >>= λ (s', again). done s') (accept-server_done owned t now a w u e))
          ∙ v.limited

      by_case : Accepts (open_session owned now t) w u → IsWhole host deserialize owned t n u
      by_case (refuses e₁ e₂ e₃) = record {
        counted = counts;
        distinct = rw e₂ v.distinct;
        limited = limit;
        unmade = λ i h. ap (λ f. f i) e₁ ∙ v.unmade i (omega (arith, h, e₃));
        absent = λ i nobody. rw e₂ (v.absent i (sym (ap (λ f. f i) e₁) ∙ nobody));
        held = λ i s es. rw e₂ (v.held i s (sym (ap (λ f. f i) e₁) ∙ es));
        reached = λ i s es. v.reached i s (sym (ap (λ f. f i) e₁) ∙ es);
      }
      by_case (admits session eo e₁ e₂ e₃) = record {
        counted = counts;
        distinct =
            rw e₂ (v.absent w.server.made (v.unmade w.server.made (omega arith)), v.distinct);
        limited = limit;
        unmade = λ i h.
            let above : w.server.made + 1 ≤ i = omega (arith, h, e₃) in
            let other : i ≢ w.server.made = λ same. omega arith in
            ap (λ f. f i) e₁
            ∙ put_ne w.server.made i session w.client other
            ∙ v.unmade i (omega arith);
        absent = λ i nobody.
            let (other, before) =
              put_none w.server.made i session w.client (sym (ap (λ f. f i) e₁) ∙ nobody) in
            let out = v.absent i before in rw e₂ (ground arith);
        held = λ i s es.
            let put_s = sym (ap (λ f. f i) e₁) ∙ es in
            elim (put_cases w.server.made i session s w.client put_s) [
              | inl (same, is) ↦
                  let in_it = (opened owned t now session eo).1 in rw e₂ (ground arith)
              | inr (other, at) ↦ let h = v.held i s at in rw e₂ (ground arith)
            ];
        reached = λ i s es.
            elim (put_cases w.server.made i session s w.client (sym (ap (λ f. f i) e₁) ∙ es)) [
              | inl (same, is) ↦ (
                now,
                session,
                [],
                eo,
                subst (λ x. Reach host deserialize session [] x) is Reach.here,
              )
              | inr (other, at) ↦ v.reached i s at
            ];
      }

  pub continued-IsWhole :
      (now i : ℕ) (event : Strand.Event) (s s' : Session) (w : Whole)
      → IsWhole host deserialize owned t n w
      → w.client i ≡ some s
      → IsEnabled event s
      → Strand.step host deserialize now event s ≡ done s'
      → IsWhole host deserialize owned t n (continued i s w s')
  continued-IsWhole now i event s s' w v es en e =
      let before = alone w v i s es in
      let after = Session.step-Inv host deserialize now event s s' before en e in
      let stays = λ (h : s.stopped ≡ true). step_stays host deserialize now event s s' h e in
      record {
        counted = back_counted i s s' w.server before after stays v.counted;
        distinct = back-Distinct i s s' w.server before after stays v.distinct;
        limited = back_limit i s s' w.server before after stays ∙ v.limited;
        unmade = λ k h.
            let made = back_made i s s' w.server before after stays in
            let nobody = v.unmade k (omega (arith, h, made)) in
            put_ne i k s' w.client (λ same. cc (ap w.client same)) ∙ nobody;
        absent = λ k nobody.
            back_unmade i s s' w.server before after stays k
              (v.absent k (put_none i k s' w.client nobody).1);
        held = λ k x ek. elim (put_cases i k s' x w.client ek) [
          | inl (same, is) ↦
              let h = back_held i s s' w.server before after stays v.distinct (v.held i s es) in
              rw (same, ← is) h
          | inr (other, at) ↦ back_other i s s' w.server before after stays k other ∙ v.held k x at
        ];
        reached = λ k x ek. elim (put_cases i k s' x w.client ek) [
          | inl (same, is) ↦
              let (opened_at, initial, packets, eo, r) = v.reached i s es in
              (
                opened_at,
                initial,
                packets ++ Strand.requested event,
                eo,
                subst (λ y. Reach host deserialize initial (packets ++ Strand.requested event) y) is
                    (Reach.next r now event en e),
              )
          | inr (other, at) ↦ v.reached k x at
        ];
      }

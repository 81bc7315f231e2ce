-- ===== src/Connection/Events/Drain.antt =====
-- A connection whose socket stays open sends all that it was asked to.
use scalable_tcp_server.Base.{
  ℕ, ◌≡◌, refl, sym, ap, ◌∙◌, inl, inr, true, false, Bool-cases, List, [], ◌∷◌, ◌++◌, append-nil,
  append_assoc, List-cases, Outcome, done, ◌>>=◌, arith,
}
use mathlib.Core.Path.{subst}
use scalable_tcp_server.Word.{Host}
use scalable_tcp_server.Auth.{LoginRequest}
use scalable_tcp_server.Connection.{Session, success, never, expires_after}
use scalable_tcp_server.Connection.Lifecycle.{construct, release}
use scalable_tcp_server.Connection.Writer.{write, on_post, on_written, was_written}
use scalable_tcp_server.Connection.Events.{
  posted, written, transmit, run_post, requested, handle, step, start, Reach, here, next,
}
use scalable_tcp_server.Connection.Events.Invariant.{Inv, Reach-keeps, start-Inv}
use scalable_tcp_server.Connection.Events.Order.{Reach-outbox}

alive : (s : Session) → Inv s → s.is_open ≡ true → s.destroyed ≡ false
alive s v up = elim (Bool-cases s.destroyed) [
  | inr no_end ↦ no_end
  | inl ended ↦ ground (arith, v.alive ended)
]

module _ (now : ℕ) where
  -- The handler of the packet posted first.
  posted_runs :
      (p : List ℕ) (ps : List (List ℕ)) (s : Session)
      → s.destroyed ≡ false
      → (t : Session) × (run_post now s (p ∷ ps) ≡ done t)
        × (t.pending.posts ≡ ps)
        × (t.is_open ≡ s.is_open)
  unfolding on_post write
  posted_runs p ps s up = elim (List-cases s.queue_buffer) [
    | inl none_queued ↦ (
      record s {
        queue_buffer = s.queue_buffer ++ p ∷ [];
        write_timer = expires_after now s.seconds_write;
        pending = record s.pending { posts = ps; writes = s.pending.writes ++ p ∷ [] };
      },
      ground arith,
      refl,
      refl,
    )
    | inr (q, qs, queued) ↦ (
      record s {
        queue_buffer = s.queue_buffer ++ p ∷ [];
        pending = record s.pending { posts = ps };
      },
      ground arith,
      refl,
      refl,
    )
  ]

  -- The handler of a write that went well.
  written_runs :
      (q : List ℕ) (qs : List (List ℕ)) (s : Session)
      → s.destroyed ≡ false
      → s.is_open ≡ true
      → s.queue_buffer ≡ q ∷ qs
      → (t : Session) × (on_written now success (transmit success s (q ∷ [])) ≡ done t)
        × (t.queue_buffer ≡ qs)
        × (t.pending.posts ≡ s.pending.posts)
        × (t.is_open ≡ true)
  unfolding on_written was_written write
  written_runs q [] s up listening queued = (
    record s {
      transmitted = s.transmitted ++ q ∷ [];
      queue_buffer = [];
      write_timer = never;
      pending = record s.pending { writes = [] };
    },
    ground arith,
    refl,
    refl,
    listening,
  )
  written_runs q (r ∷ rs) s up listening queued = (
    record s {
      transmitted = s.transmitted ++ q ∷ [];
      queue_buffer = r ∷ rs;
      write_timer = expires_after now s.seconds_write;
      pending = record s.pending { writes = r ∷ [] };
    },
    ground arith,
    refl,
    refl,
    listening,
  )

module _ (host : Host) (deserialize : List ℕ → Outcome LoginRequest) (now : ℕ) where
  posted_step :
      (p : List ℕ) (ps : List (List ℕ)) (s : Session)
      → Inv s
      → s.is_open ≡ true
      → s.pending.posts ≡ p ∷ ps
      → (t : Session) × (step host deserialize now posted s ≡ done t)
        × (t.pending.posts ≡ ps)
        × (t.is_open ≡ true)
  unfolding step handle release
  posted_step p ps s v up posts =
      let (t, e, left, same) = posted_runs now p ps s (alive s v up) in
      (
        release t,
        ap (λ l. run_post now s l >>= λ r. done (release r)) posts
            ∙ ap (λ o. o >>= λ r. done (release r)) e,
        left,
        same ∙ up,
      )

  written_step :
      (q : List ℕ) (qs : List (List ℕ)) (s : Session)
      → Inv s
      → s.is_open ≡ true
      → s.queue_buffer ≡ q ∷ qs
      → (t : Session) × (step host deserialize now (written success) s ≡ done t)
        × (t.queue_buffer ≡ qs)
        × (t.pending.posts ≡ s.pending.posts)
        × (t.is_open ≡ true)
        × (s.pending.writes ≡ q ∷ [])
  unfolding step handle release
  written_step q qs s v up queued =
      let writes : s.pending.writes ≡ q ∷ [] = ground (arith, v.one_write) in
      let (t, e, left, same, still) = written_runs now q qs s (alive s v up) up queued in
      (
        release t,
        ap (λ w. on_written now success (transmit success s w) >>= λ r. done (release r)) writes
            ∙ ap (λ o. o >>= λ r. done (release r)) e,
        left,
        same,
        still,
        writes,
      )

  module _ (initial : Session) (v : Inv initial) (packets : List (List ℕ)) where
    -- The states to come in which nobody asks for another packet.
    abbrev Leads : (Session → Type 0) → Type 0
    Leads P = (t : Session) × Reach host deserialize initial packets t × (t.is_open ≡ true) × P t

    drain_queue :
        (qs : List (List ℕ)) (s : Session)
        → Reach host deserialize initial packets s
        → s.is_open ≡ true
        → s.queue_buffer ≡ qs
        → s.pending.posts ≡ []
        → Leads (λ t. (t.queue_buffer ≡ []) × (t.pending.posts ≡ []))
    drain_queue [] s r up queued posts = (s, r, up, (queued, posts))
    drain_queue (q ∷ qs) s r up queued posts =
        let (t, e, left, same, still, writes) = written_step q qs s (Reach-keeps v r) up queued in
        drain_queue qs t
          (subst (λ ps. Reach host deserialize initial ps t) (append-nil packets)
            (next r now (written success) ((λ none_left. cc), tt) e))
          still left (same ∙ posts)

    drain_posts :
        (ps : List (List ℕ)) (s : Session)
        → Reach host deserialize initial packets s
        → s.is_open ≡ true
        → s.pending.posts ≡ ps
        → Leads (λ t. t.pending.posts ≡ [])
    drain_posts [] s r up posts = (s, r, up, posts)
    drain_posts (p ∷ ps) s r up posts =
        let (t, e, left, still) = posted_step p ps s (Reach-keeps v r) up posts in
        drain_posts ps t
          (subst (λ ps'. Reach host deserialize initial ps' t) (append-nil packets)
            (next r now posted (λ none_left. cc) e))
          still left

Reach-trans :
    {host : Host} {deserialize : List ℕ → Outcome LoginRequest} {initial s t : Session}
    {packets more : List (List ℕ)}
    → Reach host deserialize initial packets s
    → Reach host deserialize s more t
    → Reach host deserialize initial (packets ++ more) t
Reach-trans {host} {deserialize} {initial} {s} {packets} r here =
    subst (λ ps. Reach host deserialize initial ps s) (sym (append-nil packets)) r
Reach-trans {host} {deserialize} {initial} {packets} r
      (next {packets = more} {t} q now event en e) =
    subst (λ ps. Reach host deserialize initial ps t) (append_assoc packets more (requested event))
      (next (Reach-trans r q) now event en e)

-- For a session that is built and started on objects that a `shared_ptr` owns: from every state that
-- it reaches with its socket open, a state can be reached, with nobody asking for another packet, whose
-- socket is open and that has transmitted exactly the packets it was asked to write, in that order,
-- with nothing left in the queue or posted.
pub Reach-drains :
    {host : Host} {deserialize : List ℕ → Outcome LoginRequest} {built initial s : Session}
    {packets : List (List ℕ)}
    → (now seconds_idle read_seconds seconds_write : ℕ)
    → construct true seconds_idle read_seconds seconds_write ≡ done built
    → start true now built ≡ done initial
    → Reach host deserialize initial packets s
    → s.is_open ≡ true
    → (t : Session) × Reach host deserialize s [] t
      × (t.is_open ≡ true)
      × (t.transmitted ≡ packets)
      × (t.queue_buffer ≡ [])
      × (t.pending.posts ≡ [])
Reach-drains {host} {deserialize} {built} {initial} {s} {packets} now idle read write eb ei r up =
    let v = Reach-keeps (start-Inv now idle read write built initial eb ei).0 r in
    let (s₁, r₁, up₁, posts₁) =
      drain_posts host deserialize now s v [] s.pending.posts s here up refl in
    let (t, rt, upt, (queued, posts)) =
      drain_queue host deserialize now s v [] s₁.queue_buffer s₁ r₁ up₁ refl posts₁ in
    let whole =
      subst (λ ps. Reach host deserialize initial ps t) (append-nil packets) (Reach-trans r rt) in
    let all = Reach-outbox now idle read write eb ei whole upt in
    (
      t,
      rt,
      upt,
      sent t.transmitted t.queue_buffer t.pending.posts packets queued posts all,
      queued,
      posts,
    )
  where
    sent : (xs ys zs ps : List (List ℕ)) → ys ≡ [] → zs ≡ [] → xs ++ (ys ++ zs) ≡ ps → xs ≡ ps
    sent xs ys zs ps ey ez e = sym (append-nil xs) ∙ rw (ey, ez) at e

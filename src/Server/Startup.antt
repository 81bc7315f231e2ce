-- ===== src/Server/Startup.antt =====
-- The constructor of `Server`, `start_accept` and `start_workers` of src/server/server.cpp, without
-- their log lines.
use scalable_tcp_server.Base.{
  ℕ, zero, suc, ◌+◌, ◌-◌, ◌^◌, ◌≤◌, ◌<◌, ◌≡◌, ◌⊎◌, inl, inr, refl, ap, ◌∙◌, ◌==◌, Bool-cases,
  throws, system_error, Bool, true, false, ltb, if◌then◌else◌, List, [], length, Outcome, done,
  ◌>>=◌, ◌>>◌, >>=-eq-done, codes, arith,
}
use native.Mathlib.Decide.{ℕ_discrete}
use scalable_tcp_server.Word.{u16}
use scalable_tcp_server.Config.{Json, get_string, get_int, get_bool}
use scalable_tcp_server.Server.{Server, Timeouts, Event, run}
use scalable_tcp_server.Server.Capacity.{Inv, run-Inv, run-max_sessions}

-- What asio does for an acceptor; each call may throw.
pub record Network : Type 1 where
  pub Address : Type 0
  pub make_address : List ℕ → Outcome Address
  pub open_for : Address → Outcome (Unit {0})
  pub set_reuse_address : Bool → Outcome (Unit {0})
  pub bind : Address → (port : ℕ) → Outcome (Unit {0})
  pub listen : (backlog : ℕ) → Outcome (Unit {0})

-- An `int`, given by its 32 bits, where the language converts it to `size_t`: the sign is extended.
unfoldable pub size_of_int : ℕ → ℕ
size_of_int n = if ltb n (2 ^ 31) then n else n + (2 ^ 64 - 2 ^ 32)

-- A server whose acceptor is open and that has accepted nobody yet.
abbrev pub idle_server : ℕ → Server
idle_server max_sessions = record {
  is_open = true;
  sessions = [];
  made = 0;
  active_connections = 0;
  max_sessions = max_sessions;
}

idle_server-Inv : (n : ℕ) → Inv (idle_server n)
idle_server-Inv n = record { held = omega arith; capped = omega arith }

-- `start_accept`: whether it waits for a client.
unfoldable pub start_accept : Server → Bool
start_accept s = s.is_open

-- What becomes of the worker threads: they are made and joined, once `io_context::run` has returned in
-- each, or the program is terminated.
pub data Workers : Type 0 where
  joined : ℕ → Workers
  terminated : Workers

-- The loop that makes the threads, with `made` of them in the vector; `spawns` is whether the thread with
-- a number can be made. If not, the constructor of `std::thread` throws, and the vector is destroyed:
-- the destructor of a thread that was not joined calls `std::terminate`.
unfoldable pub make_threads : (spawns : ℕ → Bool) → (left made : ℕ) → Outcome Workers
make_threads spawns zero made = done (joined made)
make_threads spawns (suc left) made =
    let rest = make_threads spawns left (made + 1) in
    if spawns made then rest else if made == 0 then throws system_error else done terminated

module _ (j : Json) where
  unfoldable pub start_workers : (spawns : ℕ → Bool) → j.Object → Outcome Workers
  unfolding make_threads
  start_workers spawns root = do
    thread_count ← get_int j root (codes "thread_pool.thread_count") 0
    make_threads spawns (size_of_int thread_count) 0

-- The loop ends: every thread could be made, or one is the first that could not.
pub make_threads-cases :
    (spawns : ℕ → Bool) (left made : ℕ)
    → (((i : ℕ) → made ≤ i → i < made + left → spawns i ≡ true)
        × (make_threads spawns left made ≡ done (joined (made + left))))
      ⊎ ((i : ℕ) × (made ≤ i)
          × (i < made + left)
          × (spawns i ≡ false)
          × ((k : ℕ) → made ≤ k → k < i → spawns k ≡ true)
          × (make_threads spawns left made
              ≡ (if i == 0 then throws system_error else done terminated)))
unfolding make_threads
make_threads-cases spawns zero made =
    inl ((λ i h k. absurd (omega arith)), ap (λ n. done (joined n)) (omega arith))
make_threads-cases spawns (suc left) made = elim (Bool-cases (spawns made)) [
  | inr fails ↦
      inr (made, omega arith, omega arith, fails, (λ k h h'. absurd (omega arith)), rw fails refl)
  | inl makes ↦ elim (make_threads-cases spawns left (made + 1)) [
    | inl (all, e) ↦ inl (
      (λ i h h'. spawned i h all makes (omega arith)),
      rw makes (e ∙ ap (λ n. done (joined n)) (omega arith)),
    )
    | inr (i, low, high, fails, before, e) ↦
        inr
          (i, omega arith, omega arith, fails, (λ k h h'. first k i h h' before makes), rw makes e)
  ]
]
  where
    spawned :
        (i : ℕ)
        → made ≤ i
        → ((i : ℕ) → made + 1 ≤ i → i < made + 1 + left → spawns i ≡ true)
        → spawns made ≡ true
        → i < made + 1 + left
        → spawns i ≡ true
    spawned i h all makes high = elim (ℕ_discrete i made) [
      | yes e ↦ ap spawns e ∙ makes
      | no e ↦ all i (omega arith) high
    ]

    first :
        (k i : ℕ)
        → made ≤ k
        → k < i
        → ((k : ℕ) → made + 1 ≤ k → k < i → spawns k ≡ true)
        → spawns made ≡ true
        → spawns k ≡ true
    first k i h h' before makes = elim (ℕ_discrete k made) [
      | yes e ↦ ap spawns e ∙ makes
      | no e ↦ before k (omega arith) h'
    ]

module _ (j : Json) (net : Network) where
  -- The acceptor, from the endpoint on.
  unfoldable pub listen_on :
      (host : List ℕ) → (port : ℕ) → Bool → (backlog : ℕ) → Outcome (Unit {0})
  listen_on host port reuse_address backlog = do
    address ← net.make_address host
    net.open_for address
    net.set_reuse_address reuse_address
    net.bind address (u16 port)
    net.listen backlog

  -- The constructor.
  unfoldable pub new_server : j.Object → Outcome Server
  new_server root = do
    host ← get_string j root (codes "server.address") []
    port ← get_int j root (codes "server.port") 0
    reuse_address ← get_bool j root (codes "server.reuse_address") false
    backlog ← get_int j root (codes "server.backlog") 0
    max_sessions ← get_int j root (codes "sessions.max_sessions") 0
    listen_on host port reuse_address backlog
    done (idle_server (size_of_int max_sessions))

  -- What a server that the constructor returned was made with.
  pub new_server-listens :
      (root : j.Object) (s : Server)
      → new_server root ≡ done s
      → (host : List ℕ) × (port : ℕ) × (reuse : Bool) × (backlog : ℕ) × (max_sessions : ℕ)
        × (get_string j root (codes "server.address") [] ≡ done host)
        × (get_int j root (codes "server.port") 0 ≡ done port)
        × (get_bool j root (codes "server.reuse_address") false ≡ done reuse)
        × (get_int j root (codes "server.backlog") 0 ≡ done backlog)
        × (get_int j root (codes "sessions.max_sessions") 0 ≡ done max_sessions)
        × (listen_on host port reuse backlog ≡ done tt)
        × (s ≡ idle_server (size_of_int max_sessions))
  unfolding new_server
  new_server-listens root s e =
      let (host, eh, e₁) = >>=-eq-done (get_string j root (codes "server.address") []) _ e in
      let (port, ep, e₂) = >>=-eq-done (get_int j root (codes "server.port") 0) _ e₁ in
      let (reuse, er, e₃) =
        >>=-eq-done (get_bool j root (codes "server.reuse_address") false) _ e₂ in
      let (backlog, eb, e₄) = >>=-eq-done (get_int j root (codes "server.backlog") 0) _ e₃ in
      let (max, em, e₅) = >>=-eq-done (get_int j root (codes "sessions.max_sessions") 0) _ e₄ in
      let (_, el, e₆) = >>=-eq-done (listen_on host port reuse backlog) _ e₅ in
      (host, port, reuse, backlog, max, eh, ep, er, eb, em, el, cc)

  pub new_server-done :
      (root : j.Object) (s : Server)
      → new_server root ≡ done s
      → (max_sessions : ℕ) × (get_int j root (codes "sessions.max_sessions") 0 ≡ done max_sessions)
        × (s ≡ idle_server (size_of_int max_sessions))
  new_server-done root s e =
      let (_, _, _, _, max, _, _, _, _, em, _, same) = new_server-listens root s e in
      (max, em, same)

  pub new_server-accepts :
      (root : j.Object) (s : Server) → new_server root ≡ done s → start_accept s ≡ true
  unfolding start_accept
  new_server-accepts root s e = let (max, em, same) = new_server-done root s e in rw same refl

  -- A server that the constructor returned is limited by the configured `sessions.max_sessions`, or by
  -- 0 if there is none: whatever is accepted and closed, when a run of it returns, it holds no more
  -- sessions than this number, taken as `size_t`.
  pub new_server-run :
      (root : j.Object) (s : Server)
      → new_server root ≡ done s
      → (max_sessions : ℕ) × (get_int j root (codes "sessions.max_sessions") 0 ≡ done max_sessions)
        × ((owned : Bool) (t : Timeouts) (es : List Event) (u : Server)
            → run owned t es s ≡ done u
            → length u.sessions ≤ size_of_int max_sessions)
  new_server-run root s e =
      let (max, em, same) = new_server-done root s e in
      (
        max,
        em,
        λ owned t es u r.
            let started : run owned t es (idle_server (size_of_int max)) ≡ done u = rw same at r in
            let v = run-Inv owned t es _ u (idle_server-Inv (size_of_int max)) started in
            omega (arith, v, run-max_sessions owned t es _ u started),
      )

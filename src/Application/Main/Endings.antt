-- ===== src/Application/Main/Endings.antt =====
-- What becomes of the worker threads of src/server/server.cpp, and how the program can end.
use scalable_tcp_server.Base.{
  ℕ, zero, suc, ◌<◌, ◌≡◌, ◌⊎◌, refl, Bool, true, false, ◌==◌, if◌then◌else◌, inl, inr, none, some,
  Outcome, done, throws, Exception, system_error, codes, arith,
}
use native.Mathlib.Nat.{zero-add}
use scalable_tcp_server.Config.{Json, get_int}
use scalable_tcp_server.Config.Getters.{IsJson}
use scalable_tcp_server.Config.Values.{IntAt, get_int-IntAt}
use scalable_tcp_server.Server.Settings.{setting}
use scalable_tcp_server.Server.Startup.{
  Workers, joined, terminated, size_of_int, make_threads, make_threads-cases, start_workers,
}
use scalable_tcp_server.Application.{Application, is_std}
use scalable_tcp_server.Application.Main.{Ending, exits, aborts}

module _ (j : Json) where
  -- The number of threads that the configuration asks for.
  abbrev pub IsCount : j.Object → ℕ → Type 0
  IsCount root n =
      (count : ℕ) × IntAt j root (codes "thread_pool.thread_count") 0 count
      × (n ≡ size_of_int count)

  -- What the workers come to.
  pub data Started (spawns : ℕ → Bool) (root : j.Object) : Outcome Workers → Type 0 where
    all :
        (n : ℕ)
        → IsCount root n
        → ((i : ℕ) → i < n → spawns i ≡ true)
        → Started spawns root (done (joined n))
    thrown : (e : Exception) → is_std e ≡ true → Started spawns root (throws e)
    part :
        (n i : ℕ)
        → IsCount root n
        → 0 < i
        → i < n
        → spawns i ≡ false
        → ((k : ℕ) → k < i → spawns k ≡ true)
        → Started spawns root (done terminated)

  -- The three ways in which the program ends: it has run, an exception was printed, or it was terminated.
  abbrev pub Ends :
      (spawns : ℕ → Bool) (built : Outcome (Application j)) (program : Outcome (Bool × Workers))
      → Ending
      → Type 0
  Ends spawns built program x =
      ((app : Application j) × (n : ℕ) × (built ≡ done app)
        × IsCount app.config n
        × ((i : ℕ) → i < n → spawns i ≡ true)
        × (x ≡ exits none 0))
      ⊎ (((e : Exception) × (program ≡ throws e) × (x ≡ exits (some e) 0))
          ⊎ ((app : Application j) × (n : ℕ) × (i : ℕ) × (built ≡ done app)
              × IsCount app.config n
              × (0 < i)
              × (i < n)
              × (spawns i ≡ false)
              × ((k : ℕ) → k < i → spawns k ≡ true)
              × (x ≡ aborts)))

  module _ (laws : IsJson j) where
    pub start_workers-Started :
        (spawns : ℕ → Bool) (root : j.Object) → Started spawns root (start_workers j spawns root)
    unfolding start_workers
    start_workers-Started spawns root =
        elim (setting j root laws (codes "thread_pool.thread_count") 0) [
          | inl (_, e) ↦ rw e (Started.thrown system_error refl)
          | inr (count, _, e) ↦ rw e (by_loop count e)
        ]
      where
        stopped_at :
            (n i : ℕ)
            → IsCount root n
            → i < n
            → spawns i ≡ false
            → ((k : ℕ) → k < i → spawns k ≡ true)
            → Started spawns root (if i == 0 then throws system_error else done terminated)
        stopped_at n zero counted high fails before = Started.thrown system_error refl
        stopped_at n (suc i) counted high fails before =
            let positive : (suc i == 0) ≡ false = ground arith in
            rw positive (Started.part n (suc i) counted (omega arith) high fails before)

        by_loop :
            (count : ℕ)
            → get_int j root (codes "thread_pool.thread_count") 0 ≡ done count
            → Started spawns root (make_threads spawns (size_of_int count) 0)
        by_loop count e =
            let n = size_of_int count in
            let counted : IsCount root n = (
              count,
              get_int-IntAt j root laws (codes "thread_pool.thread_count") 0 count e,
              refl,
            ) in
            elim (make_threads-cases spawns n 0) [
              | inl (made, same) ↦
                  rw (same, zero-add)
                    (Started.all n counted (λ i h. made i (omega arith) (omega arith)))
              | inr (i, _, high, fails, before, same) ↦ rw same (
                  stopped_at n i counted (omega (arith, high)) fails
                    (λ k h. before k (omega arith) h))
            ]

-- ===== src/RunLoop/Agreement.antt =====
-- The two ways in which run_io_context() (include/nghttp2-corosio/run_io_context.hpp) runs handlers.
use nghttp2_corosio.Base.{
  ℕ, zero, suc, ◌+◌, ◌≡◌, refl, sym, ap, ◌∙◌, ◌⊎◌, inl, inr, some, arith, Bool-cases,
}
use nghttp2_corosio.Logging.{LogLevel, steps_singly}
use nghttp2_corosio.RunLoop.{Scheduler, step_through, run_io_context}

-- What the documentation of io_context says of run() and run_one(): run_one() runs one handler or,
-- if there is none to run, none; and run() is run_one() until it runs none.
pub record IsRunByOne {Context : Type 0} (s : Scheduler Context) : Type 0 where
  pub at_most_one : (c : Context) → ((s.run_one c).0 ≡ 0) ⊎ ((s.run_one c).0 ≡ 1)
  pub run_none : (c : Context) → (s.run_one c).0 ≡ 0 → s.run c ≡ s.run_one c
  pub run_more :
      (c : Context)
      → (s.run_one c).0 ≡ 1
      → s.run c ≡ ((s.run (s.run_one c).1).0 + 1, (s.run (s.run_one c).1).1)

module _ {Context : Type 0} (s : Scheduler Context) where
  -- There is nothing left to run within so many handlers.
  abbrev pub RunsOut : ℕ → Context → Type 0
  RunsOut zero c = (s.run_one c).0 ≡ 0
  RunsOut (suc n) c = ((s.run_one c).0 ≡ 0) ⊎ RunsOut n (s.run_one c).1

  step_through_none :
      (fuel i : ℕ) (c : Context)
      → (s.run_one c).0 ≡ 0
      → step_through s (suc fuel) i c ≡ some (i, (s.run_one c).1)
  unfolding step_through
  step_through_none fuel i c h = rw h refl

  step_through_one :
      (fuel i : ℕ) (c : Context)
      → (s.run_one c).0 ≡ 1
      → step_through s (suc fuel) i c ≡ step_through s fuel (i + 1) (s.run_one c).1
  unfolding step_through
  step_through_one fuel i c h = rw h refl

  stopped :
      (fuel i : ℕ) (c : Context)
      → IsRunByOne s
      → (s.run_one c).0 ≡ 0
      → step_through s (suc fuel) i c ≡ some (i + (s.run c).0, (s.run c).1)
  stopped fuel i c v none_ran =
      let count : i ≡ i + (s.run c).0 = omega (arith, ap (λ r. r.0) (v.run_none c none_ran)) in
      step_through_none fuel i c none_ran
      ∙ ap (λ k. some (k, (s.run_one c).1)) count
      ∙ ap (λ r. some (i + (s.run c).0, r.1)) (sym (v.run_none c none_ran))

  step_through-run :
      (n i : ℕ) (c : Context)
      → IsRunByOne s
      → RunsOut n c
      → step_through s (suc n) i c ≡ some (i + (s.run c).0, (s.run c).1)
  step_through-run zero i c v h = stopped zero i c v h
  step_through-run (suc n) i c v (inl h) = stopped (suc n) i c v h
  step_through-run (suc n) i c v (inr h) = elim (v.at_most_one c) [
    | inl none_ran ↦ stopped (suc n) i c v none_ran
    | inr one_ran ↦
        let c' = (s.run_one c).1 in
        let count : (i + 1) + (s.run c').0 ≡ i + (s.run c).0 =
          omega (arith, ap (λ r. r.0) (v.run_more c one_ran)) in
        step_through_one (suc n) i c one_ran
        ∙ step_through-run n (i + 1) c' v h
        ∙ ap (λ k. some (k, (s.run c').1)) count
        ∙ ap (λ r. some (i + (s.run c).0, r.1)) (sym (v.run_more c one_ran))
  ]

  -- For an io_context that is documented so, and that runs out of handlers within the fuel given:
  -- run_io_context() returns, at every log level, what run() returns, and leaves the io_context as
  -- run() does.
  pub run_io_context-run :
      (threshold : LogLevel) (n : ℕ) (c : Context)
      → IsRunByOne s
      → RunsOut n c
      → run_io_context s threshold (suc n) c ≡ some (s.run c)
  unfolding run_io_context
  run_io_context-run threshold n c v h = elim (Bool-cases (steps_singly threshold)) [
    | inl e ↦ rw e (
        step_through-run n 0 c v h
        ∙ ap (λ k. some (k, (s.run c).1)) {x = 0 + (s.run c).0} {y = (s.run c).0} (omega arith))
    | inr e ↦ rw e refl
  ]

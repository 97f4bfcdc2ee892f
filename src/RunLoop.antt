-- ===== src/RunLoop.antt =====
-- run_io_context() (include/nghttp2-corosio/run_io_context.hpp), which Server::run() calls. The
-- io_context is a parameter: it belongs to corosio.
pub mod Agreement
use nghttp2_corosio.Base.{ℕ, zero, suc, ◌+◌, Option, none, some, if◌then◌else◌, ◌==◌}
use nghttp2_corosio.Logging.{LogLevel, steps_singly}

-- An io_context in some state: run_one() runs at most one handler, run() runs handlers until there is
-- none to run. Both return how many they ran.
pub record Scheduler (Context : Type 0) : Type 0 where
  pub run_one : Context → ℕ × Context
  pub run : Context → ℕ × Context

module _ {Context : Type 0} (s : Scheduler Context) where
  -- The loop at level debug, with its counter; with fuel.
  unfoldable pub step_through : ℕ → ℕ → Context → Option (ℕ × Context)
  step_through zero i c = none
  step_through (suc fuel) i c =
      let (ran, c') = s.run_one c in
      let rest = step_through fuel (i + 1) c' in if ran == 0 then some (i, c') else rest

  unfoldable pub run_io_context : LogLevel → ℕ → Context → Option (ℕ × Context)
  unfolding step_through steps_singly
  run_io_context threshold fuel c =
      if steps_singly threshold then step_through fuel 0 c else some (s.run c)

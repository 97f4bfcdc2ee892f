-- ===== src/Tests/Programs.antt =====
-- The setup of a session, run_io_context() and the command line at concrete inputs.
use nghttp2_corosio.Base.{
  ℕ, zero, suc, ◌≡◌, refl, ap, arith, ◌+◌, ◌⊎◌, inl, inr, true, false, none, some, pos,
}
use nghttp2_corosio.Logging.{debug, info}
use nghttp2_corosio.RunLoop.{Scheduler, run_io_context}
use nghttp2_corosio.RunLoop.Agreement.{IsRunByOne, run_io_context-run}
use nghttp2_corosio.Session.{server}
use nghttp2_corosio.Session.Setup.{Answers}
use nghttp2_corosio.Session.Setup.Resources.{IsClean, life-IsClean}
use nghttp2_corosio.Demo.{options}

-- An io_context that has a number of handlers to run.
abbrev counting : Scheduler ℕ
counting = record { run_one = one; run = λ n. (n, 0) }
  where
    one : ℕ → ℕ × ℕ
    one zero = (0, 0)
    one (suc n) = (1, n)

counting-IsRunByOne : IsRunByOne counting
counting-IsRunByOne = record { at_most_one = at_most_one; run_none = run_none; run_more = run_more }
  where
    at_most_one : (n : ℕ) → ((counting.run_one n).0 ≡ 0) ⊎ ((counting.run_one n).0 ≡ 1)
    at_most_one zero = inl refl
    at_most_one (suc n) = inr refl

    run_none : (n : ℕ) → (counting.run_one n).0 ≡ 0 → counting.run n ≡ counting.run_one n
    run_none zero h = refl
    run_none (suc n) h = absurd (cc)

    run_more :
        (n : ℕ) → (counting.run_one n).0 ≡ 1 → counting.run n ≡ ((counting.run_one n).1 + 1, 0)
    run_more zero h = absurd (cc)
    run_more (suc n) h = ap (λ k. (k, 0)) (omega arith)

run_io_context-run_example : run_io_context counting debug 4 3 ≡ some (3, 0)
run_io_context-run_example =
    run_io_context-run counting debug 3 3 counting-IsRunByOne (inr (inr (inr refl)))

abbrev no_callbacks : Answers
no_callbacks = record { option_made = true; callbacks_made = false; session_made = false }

life-IsClean_example : IsClean server no_callbacks
life-IsClean_example = life-IsClean server no_callbacks

-- A port that is too large wraps; a bad level is an error.
wrapped_port : options (some (pos 65617)) none ≡ some (record { port = 81; level = info })
unfolding options
wrapped_port = refl

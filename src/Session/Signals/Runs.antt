-- ===== src/Session/Signals/Runs.antt =====
-- The wake-ups and the credits of a run of a session (src/session.cpp).
use nghttp2_corosio.Base.{ℕ, ◌+◌, ◌≡◌, refl, ◌⊎◌, inl, inr, Bool, true, ◌&&◌, List, [], ◌∷◌}
use nghttp2_corosio.Capy.{AsyncEvent, BufferCopy}
use nghttp2_corosio.Session.{Session}
use nghttp2_corosio.Session.Inputs.{Input, step, run}
use nghttp2_corosio.Session.Signals.{credits, work, Effects, Effects-leaves, Effects-trans}
use nghttp2_corosio.Session.Signals.Steps.{delivered, is_taken, step-Effects}

abbrev pub all_delivered : List Input → ℕ
all_delivered [] = 0
all_delivered (i ∷ is) = delivered i + all_delivered is

abbrev pub all_taken : List Input → Bool
all_taken [] = true
all_taken (i ∷ is) = is_taken i && all_taken is

module _ {Event : Type 0} ⦃events : AsyncEvent Event⦄ ⦃buffers : BufferCopy⦄ where
  run-Effects :
      (x : Session Event) (is : List Input) → Effects (all_delivered is) (all_taken is) x (run x is)
  unfolding run
  run-Effects x [] = Effects-leaves true x x refl refl
  run-Effects x (i ∷ is) =
      Effects-trans (delivered i) (all_delivered is) (is_taken i) (all_taken is) (step-Effects x i)
        (run-Effects (step x i) is)

  -- Over any sequence of callbacks and calls, whatever the readers do and whether or not the streams
  -- still exist, nghttp2 is told to add to the window of the connection again exactly the body bytes
  -- that it delivered.
  pub run-credits :
      (x : Session Event) (is : List Input)
      → credits (run x is).native ≡ credits x.native + all_delivered is
  run-credits x is = (run-Effects x is).credit

  -- Over any sequence of callbacks and calls in which nghttp2 takes the headers that it is given: the
  -- session has made no call of nghttp2 outside on_data_chunk_recv_callback() and the send loop's event
  -- is as before, or the event is set.
  pub run-signals :
      (x : Session Event) (is : List Input)
      → all_taken is ≡ true
      → ((work (run x is).native ≡ work x.native) × ((run x is).write_ready ≡ x.write_ready))
        ⊎ (events.is_set (run x is).write_ready ≡ true)
  run-signals x is taken = elim (run-Effects x is).signal [
    | inl quiet ↦ inl quiet
    | inr (inl set) ↦ inr set
    | inr (inr not_taken) ↦ absurd (cc)
  ]

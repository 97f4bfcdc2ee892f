-- ===== src/Session/Window/Runs.antt =====
-- The window of a stream over a run of a session (src/session.cpp, src/stream_impl.hpp).
use nghttp2_corosio.Base.{ℕ, ◌+◌, ◌≤◌, refl, List, [], ◌∷◌, arith, Bytes, All}
use nghttp2_corosio.Capy.{AsyncEvent, BufferCopy}
use nghttp2_corosio.Stream.Read.Content.{IsSound}
use nghttp2_corosio.Session.{Session, Role, new_session}
use nghttp2_corosio.Session.Inputs.{Input, step, run}
use nghttp2_corosio.Session.Lifetime.{new_session-Good}
use nghttp2_corosio.Session.Preservation.{Good, AreFresh, step-Good}
use nghttp2_corosio.Session.Window.{stream_credits, held, Balance, Balance-trans, Balance-same}
use nghttp2_corosio.Session.Window.Steps.{delivered_to, IsSoleReader, step-Balance}

abbrev pub all_delivered_to : ℕ → List Input → ℕ
all_delivered_to id [] = 0
all_delivered_to id (i ∷ is) = delivered_to id i + all_delivered_to id is

module _ {Event : Type 0} ⦃events : AsyncEvent Event⦄ ⦃buffers : BufferCopy⦄ where
  abbrev pub AreSoleReaders : Session Event → List Input → Type 0
  AreSoleReaders x [] = Unit
  AreSoleReaders x (i ∷ is) = IsSoleReader x i × AreSoleReaders (step x i) is

  pub run-Balance :
      (id : ℕ) (x : Session Event) (is : List Input)
      → AreFresh x is
      → AreSoleReaders x is
      → Good x
      → All IsSound x.heap
      → Balance id (all_delivered_to id is) x (run x is)
  unfolding run
  run-Balance id x [] fresh alone good v = Balance-same id 0 x x v refl refl
  run-Balance id x (i ∷ is) fresh alone good v =
      let w = step-Balance id x i alone.0 good v in
      Balance-trans id (delivered_to id i) (all_delivered_to id is) w
        (run-Balance id (step x i) is fresh.1 alone.1 (step-Good x i fresh.0 good) w.sound)

module _ (Event : Type 0) ⦃events : AsyncEvent Event⦄ ⦃buffers : BufferCopy⦄ where
  -- Over any sequence of callbacks and calls on a new session in which nghttp2 opens streams under
  -- fresh identifiers and no read starts on a stream while another waits on it: for every stream
  -- identifier, what nghttp2 was told to add to the stream's window again and what the session's
  -- streams of that identifier still hold for their readers are together at most the body bytes that
  -- nghttp2 delivered for it.
  pub run-stream_credits :
      (id : ℕ) (role : Role) (tag : Bytes) (is : List Input)
      → AreFresh {Event = Event} (new_session role tag) is
      → AreSoleReaders {Event = Event} (new_session role tag) is
      → let x : Session Event = run (new_session role tag) is in
        stream_credits id x.native + held id x.heap ≤ all_delivered_to id is
  unfolding new_session
  run-stream_credits id role tag is fresh alone =
      let w = run-Balance id (new_session role tag) is fresh alone (new_session-Good role tag) tt in
      omega (arith, w.owed)

-- ===== src/Session/Delivery/Runs.antt =====
-- The body of a stream over a run of a session (src/session.cpp, src/stream_impl.hpp).
use nghttp2_corosio.Base.{
  ℕ, ◌≡◌, sym, ap, ◌∙◌, some, List, [], ◌∷◌, ◌++◌, append_assoc, append-nil, Bytes,
}
use nghttp2_corosio.Capy.{AsyncEvent, BufferCopy}
use nghttp2_corosio.Session.{Session, Role, new_session, find_stream}
use nghttp2_corosio.Session.Inputs.{Input, step, run}
use nghttp2_corosio.Session.Lifetime.{new_session-Good}
use nghttp2_corosio.Session.Preservation.{Good, AreFresh, step-Good, run-Good}
use nghttp2_corosio.Session.Window.Steps.{AllSound, step-Balance}
use nghttp2_corosio.Session.Window.Runs.{AreSoleReaders, run-Balance}
use nghttp2_corosio.Session.Delivery.{content_at, arriving, all_arriving, handed_to, all_handed_to}
use nghttp2_corosio.Session.Delivery.Table.{Spares, step-Leads}
use nghttp2_corosio.Session.Delivery.Steps.{step-Delivers}

abbrev pub AllSpare : ℕ → List Input → Type 0
AllSpare id [] = Unit
AllSpare id (i ∷ is) = Spares id i × AllSpare id is

module _ {Event : Type 0} ⦃events : AsyncEvent Event⦄ ⦃buffers : BufferCopy⦄ where
  pub record Delivers (id ref : ℕ) (x : Session Event) (is : List Input) : Type 0 where
    pub still_open : find_stream (run x is) id ≡ some ref
    pub in_order :
        all_handed_to ref x is ++ content_at ref (run x is).heap
        ≡ content_at ref x.heap ++ all_arriving id is

  pub run-Delivers_from :
      (id ref : ℕ) (x : Session Event) (is : List Input)
      → AreFresh x is
      → AreSoleReaders x is
      → AllSpare id is
      → Good x
      → AllSound x
      → find_stream x id ≡ some ref
      → Delivers id ref x is
  unfolding run
  run-Delivers_from id ref x [] fresh alone spared good v found = record {
    still_open = found;
    in_order = sym (append-nil _);
  }
  run-Delivers_from id ref x (i ∷ is) fresh alone spared good v found =
      let w = step-Balance id x i alone.0 good v in
      let here = step-Delivers id ref x i alone.0 good v found in
      let rest =
        run-Delivers_from id ref (step x i) is fresh.1 alone.1 spared.1 (step-Good x i fresh.0 good)
          w.sound (step-Leads id ref x i fresh.0 spared.0 good found) in
      record {
        still_open = rest.still_open;
        in_order =
            append_assoc (handed_to ref x i) (all_handed_to ref (step x i) is) _
            ∙ ap (λ l. handed_to ref x i ++ l) rest.in_order
            ∙ sym (append_assoc (handed_to ref x i) (content_at ref (step x i).heap) _)
            ∙ ap (λ l. l ++ all_arriving id is) here
            ∙ append_assoc (content_at ref x.heap) (arriving id i) (all_arriving id is);
      }

-- A new session is run by any sequence of callbacks and calls in which nghttp2 opens streams under
-- identifiers that are not in use, and no read starts on a stream while another waits on it; its table
-- then leads from `id` to the Stream object `ref`, and nghttp2 does not close `id` in the second part.
-- Over that part, `id` leads to the same object, and the bytes that its reader is handed, then those
-- that the object still holds, are those that it held, then the body bytes that nghttp2 delivers for
-- `id`, in order: none are lost or doubled, and none come from another stream.
pub run-Delivers :
    (Event : Type 0) ⦃events : AsyncEvent Event⦄ ⦃buffers : BufferCopy⦄ (id ref : ℕ) (role : Role)
    (tag : Bytes) (before is : List Input)
    → AreFresh {Event = Event} (new_session role tag) before
    → AreSoleReaders {Event = Event} (new_session role tag) before
    → let x : Session Event = run (new_session role tag) before in
      AreFresh x is
      → AreSoleReaders x is
      → AllSpare id is
      → find_stream x id ≡ some ref
      → Delivers id ref x is
run-Delivers Event id ref role tag before is fresh alone fresh' alone' spared found =
    let start : Good {Event = Event} (new_session role tag) = new_session-Good role tag in
    run-Delivers_from id ref (run (new_session role tag) before) is fresh' alone' spared
      (run-Good (new_session role tag) before fresh start)
      (run-Balance id (new_session role tag) before fresh alone start
        (unfold new_session in tt)).sound
      found

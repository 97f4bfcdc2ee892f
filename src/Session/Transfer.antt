-- ===== src/Session/Transfer.antt =====
-- A body from a stream of one session to a stream of its peer's session (src/session.cpp,
-- src/stream_impl.hpp). That nghttp2 delivers to the one what it pulled out of the other is a hypothesis.
use nghttp2_corosio.Base.{
  ℕ, ◌<◌, ◌≡◌, ap, ◌∙◌, true, false, none, some, List, [], ◌∷◌, ◌++◌, Bytes, get_elem?,
}
use nghttp2_corosio.Capy.{AsyncEvent, BufferCopy, ErrorCode, eof}
use nghttp2_corosio.Stream.{Stream}
use nghttp2_corosio.Stream.Read.{failed, read_some}
use nghttp2_corosio.Stream.Write.Progress.{Sending}
use nghttp2_corosio.Session.{Session, Role, new_session, find_stream}
use nghttp2_corosio.Session.Inputs.{Input, run}
use nghttp2_corosio.Session.Preservation.{AreFresh}
use nghttp2_corosio.Session.Window.Runs.{AreSoleReaders}
use nghttp2_corosio.Session.Delivery.{content_at, all_arriving, all_handed_to}
use nghttp2_corosio.Session.Delivery.Runs.{AllSpare}
use nghttp2_corosio.Session.Delivery.Complete.{run-IsComplete}
use nghttp2_corosio.Session.Isolation.Opening.{Opens}
use nghttp2_corosio.Session.Writing.{all_sends, AreInTurn}
use nghttp2_corosio.Session.Writing.Runs.{so_far, opened_ref, opened, run-IsSent}

module _ (Event : Type 0) ⦃events : AsyncEvent Event⦄ ⦃buffers : BufferCopy⦄ where
  -- What the object at `ref` has come to, opened under `id` after `before` and then run by `is`.
  abbrev pub sender : Role → Bytes → List Input → ℕ → List Input → Sending Event
  sender role tag before id is =
      all_sends (opened_ref Event role tag before id) is (opened Event role tag before id)

  -- On one side, a new session is run by any sequence of callbacks and calls that opens a stream, with
  -- one write at a time on its object; at the end a write_eof() waits on it, its event is set and the
  -- stream is open. On the other side, a new session is run by any sequence in which no read starts on a
  -- stream while another waits on it; its table leads from `id'` to an object that holds nothing yet, and
  -- nghttp2 does not close `id'` in the second part, in which it delivers for `id'` just the bytes that were
  -- pulled out of the writer's object. On both sides nghttp2 opens streams under identifiers that are not
  -- in use. If then a read_some() with room on the reader's object fails, when no other waits there, its
  -- reader has been handed, over the second part, exactly the bytes that the writer's finished writes
  -- reported, each the first of those that it was called with, and then all that the write_eof() was
  -- called with, in order; and the error is `eof`.
  pub body_over_sessions :
      (role role' : Role) (tag tag' : Bytes) (before is before' is' : List Input) (i : Input)
      (id id' ref' room : ℕ) (s : Stream Event) (e : ErrorCode)
      → AreFresh {Event = Event} (new_session role tag) (before ++ i ∷ is)
      → Opens (so_far Event role tag before id) i id
      → AreInTurn (opened_ref Event role tag before id) (opened Event role tag before id) is
      → let w : Sending Event = sender role tag before id is in
        w.suspended ≡ true
        → w.stream.write_eof_requested ≡ true
        → w.stream.closed ≡ false
        → events.is_set w.stream.write_progress ≡ true
        → AreFresh {Event = Event} (new_session role' tag') before'
        → AreSoleReaders {Event = Event} (new_session role' tag') before'
        → let x : Session Event = run (new_session role' tag') before' in
          AreFresh x is'
          → AreSoleReaders x is'
          → AllSpare id' is'
          → find_stream x id' ≡ some ref'
          → content_at ref' x.heap ≡ []
          → all_arriving id' is' ≡ w.body
          → get_elem? (run x is').heap ref' ≡ some s
          → s.read_sink ≡ none
          → 0 < room
          → (read_some room s).1 ≡ failed e
          → (all_handed_to ref' x is' ≡ w.reported ++ w.given) × (e ≡ eof)
  body_over_sessions role role' tag tag' before is before' is' i id id' ref' room s e fresh opens
        turns waits end live set fresh' alone' fresh'' alone'' spared found empty same there idle
        space over =
      let sent = run-IsSent Event role tag before id is i fresh opens turns waits end live set in
      let got =
        run-IsComplete Event id' ref' room role' tag' before' is' s e fresh' alone' fresh'' alone''
          spared found there idle space over in
      (got.all_handed ∙ ap (λ l. l ++ all_arriving id' is') empty ∙ same ∙ sent.1.2, got.error)

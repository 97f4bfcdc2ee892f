-- ===== src/Session/Writing/Runs.antt =====
-- The bytes that nghttp2 pulls out of one Stream object of a running session, and the writes on that
-- object (src/session.cpp, src/stream_impl.hpp).
use nghttp2_corosio.Base.{
  ℕ, ◌≡◌, refl, sym, ap, ◌∙◌, true, false, some, List, [], ◌∷◌, ◌++◌, Bytes, length, get_elem?,
  take, if◌then◌else◌,
}
use nghttp2_corosio.Capy.{AsyncEvent, BufferCopy}
use nghttp2_corosio.Stream.Write.Progress.{Sending, Inv}
use nghttp2_corosio.Stream.Write.Delivery.{
  start, start-Inv, IsSent, Inv-IsSent, IsMoving, Inv-IsMoving,
}
use nghttp2_corosio.Session.{Session, Role, new_session, prefix_of}
use nghttp2_corosio.Session.Inputs.{Input}
use nghttp2_corosio.Session.Lifetime.{after}
use nghttp2_corosio.Session.Preservation.{AreFresh}
use nghttp2_corosio.Session.Isolation.{replay}
use nghttp2_corosio.Session.Isolation.Opening.{Opens, opened-Follows}
use nghttp2_corosio.Session.Writing.{sends, all_sends, AreInTurn}
use nghttp2_corosio.Session.Writing.Steps.{sends-Inv, sends-evolve}

module _ {Event : Type 0} ⦃events : AsyncEvent Event⦄ ⦃buffers : BufferCopy⦄ where
  all_sends-Inv :
      (ref : ℕ) (x : Sending Event) (is : List Input)
      → AreInTurn ref x is
      → Inv x
      → Inv (all_sends ref is x)
  all_sends-Inv ref x [] turns v = v
  all_sends-Inv ref x (i ∷ is) turns v =
      all_sends-Inv ref (sends ref i x) is turns.1 (sends-Inv ref x i turns.0 v)

  all_sends-replay :
      (ref : ℕ) (is : List Input) (x : Sending Event)
      → (all_sends ref is x).stream ≡ replay ref is x.stream
  all_sends-replay ref [] x = refl
  all_sends-replay ref (i ∷ is) x =
      all_sends-replay ref is (sends ref i x) ∙ ap (replay ref is) (sends-evolve ref i x)

  -- The object holds what the history says, and nothing was pulled but what was written.
  pub record IsAccounted (ref : ℕ) (y : Session Event) (w : Sending Event) : Type 0 where
    pub holds : get_elem? y.heap ref ≡ some w.stream
    pub accounted :
        w.body ≡ w.reported ++ (if w.suspended then take w.stream.write_offset w.given else [])

-- A new session is run by `before`, and the next input opens a stream under `id`.
module _ (Event : Type 0) ⦃events : AsyncEvent Event⦄ ⦃buffers : BufferCopy⦄ (role : Role)
    (tag : Bytes) (before : List Input) (id : ℕ) where
  abbrev pub so_far : Session Event
  so_far = after role tag before

  -- The reference of the new Stream object, and the object with the history of its writes, still empty.
  abbrev pub opened_ref : ℕ
  opened_ref = length so_far.heap

  abbrev pub opened : Sending Event
  opened = start id (prefix_of so_far id)

  written_on-Inv :
      (is : List Input) → AreInTurn opened_ref opened is → Inv (all_sends opened_ref is opened)
  written_on-Inv is turns =
      all_sends-Inv opened_ref opened is turns (start-Inv id (prefix_of so_far id))

  -- A new session is run by any sequence of callbacks and calls in which nghttp2 opens streams under
  -- identifiers that are not in use; after `before`, an input opens a stream under `id`, and from there on
  -- one write at a time is made on that Stream object. At the end, whatever happened to the session's other
  -- streams, the bytes that nghttp2 has pulled out of the object are those that the finished writes on it
  -- reported, each the first of the bytes that it was called with, in order, followed by the first of the
  -- bytes that its current write was called with, as many as that has sent: none come from another stream, and
  -- none are sent twice, skipped, or reported without being sent.
  pub run-IsAccounted :
      (is : List Input) (i : Input)
      → AreFresh {Event = Event} (new_session role tag) (before ++ i ∷ is)
      → Opens so_far i id
      → AreInTurn opened_ref opened is
      → IsAccounted {Event = Event} opened_ref
          (after role tag (before ++ i ∷ is))
          (all_sends opened_ref is opened)
  unfolding start
  run-IsAccounted is i fresh opens turns = record {
    holds =
        (opened-Follows role tag before is i id fresh opens).there
        ∙ ap some (sym (all_sends-replay opened_ref is opened));
    accounted = (written_on-Inv is turns).accounted;
  }

  -- A new session is run by any sequence of callbacks and calls in which nghttp2 opens streams under
  -- identifiers that are not in use; after `before`, an input opens a stream under `id`, and from there on
  -- one write at a time is made on that Stream object. If at the end the write_eof() that waits on the object is
  -- woken, and not cancelled, while the stream is open, it reports success and the number of all the
  -- bytes that it was called with; END_STREAM is on a frame; and nghttp2 has pulled out of the object what
  -- the writes before it reported, and then all the bytes that it was called with.
  pub run-IsSent :
      (is : List Input) (i : Input)
      → AreFresh {Event = Event} (new_session role tag) (before ++ i ∷ is)
      → Opens so_far i id
      → AreInTurn opened_ref opened is
      → let w : Sending Event = all_sends opened_ref is opened in
        w.suspended ≡ true
        → w.stream.write_eof_requested ≡ true
        → w.stream.closed ≡ false
        → events.is_set w.stream.write_progress ≡ true
        → (get_elem? (after {Event = Event} role tag (before ++ i ∷ is)).heap opened_ref
            ≡ some w.stream)
          × IsSent w
  run-IsSent is i fresh opens turns waits end live set = (
    (run-IsAccounted is i fresh opens turns).holds,
    Inv-IsSent (all_sends opened_ref is opened) (written_on-Inv is turns) waits end live set,
  )

  -- A new session is run by any sequence of callbacks and calls in which nghttp2 opens streams under
  -- identifiers that are not in use; after `before`, an input opens a stream under `id`, and from there on
  -- one write at a time is made on that Stream object. A write that waits on the object at the end is not
  -- stuck: either it is done or the stream is closed, and its event is set; or it is not done and
  -- the stream is open, and nghttp2 may pull, for it was not told to defer the data, or was told to resume.
  pub run-IsMoving :
      (is : List Input) (i : Input)
      → AreFresh {Event = Event} (new_session role tag) (before ++ i ∷ is)
      → Opens so_far i id
      → AreInTurn opened_ref opened is
      → (all_sends opened_ref is opened).suspended ≡ true
      → (get_elem? (after {Event = Event} role tag (before ++ i ∷ is)).heap opened_ref
          ≡ some (all_sends opened_ref is opened).stream)
        × IsMoving (all_sends opened_ref is opened)
  run-IsMoving is i fresh opens turns waits = (
    (run-IsAccounted is i fresh opens turns).holds,
    Inv-IsMoving (all_sends opened_ref is opened) (written_on-Inv is turns) waits,
  )

-- ===== src/Session/Answer/Runs.antt =====
-- What status() and get_response() tell of one stream over a run of a session (src/session.cpp,
-- src/stream_impl.hpp).
use nghttp2_corosio.Base.{
  ℕ, ◌≡◌, refl, sym, ap, ◌∙◌, some, List, [], ◌∷◌, ◌++◌, Bytes, length, get_elem?,
}
use nghttp2_corosio.Capy.{AsyncEvent, BufferCopy}
use nghttp2_corosio.Stream.{Stream, new_stream}
use nghttp2_corosio.Stream.Status.Waits.{
  Seen, unseen, HasAnswer, Answers, Inv, Inv-Answers, new_stream-Inv,
}
use nghttp2_corosio.Session.{Session, Role, new_session, prefix_of}
use nghttp2_corosio.Session.Inputs.{Input}
use nghttp2_corosio.Session.Lifetime.{after}
use nghttp2_corosio.Session.Preservation.{AreFresh}
use nghttp2_corosio.Session.Isolation.{replay}
use nghttp2_corosio.Session.Isolation.Opening.{Opens, opened-Follows}
use nghttp2_corosio.Session.Answer.{attends, all_attends, AreTimely}
use nghttp2_corosio.Session.Answer.Steps.{attends-Inv}

module _ {Event : Type 0} ⦃events : AsyncEvent Event⦄ ⦃buffers : BufferCopy⦄ where
  all_attends-Inv :
      (ref : ℕ) (x : Seen × Stream Event) (is : List Input)
      → AreTimely ref x is
      → Inv x
      → Inv (all_attends ref is x)
  all_attends-Inv ref x [] timely v = v
  all_attends-Inv ref x (i ∷ is) timely v =
      all_attends-Inv ref (attends ref i x) is timely.1 (attends-Inv ref x.0 x.1 i timely.0 v)

  all_attends-replay :
      (ref : ℕ) (is : List Input) (x : Seen × Stream Event)
      → (all_attends ref is x).1 ≡ replay ref is x.1
  all_attends-replay ref [] x = refl
  all_attends-replay ref (i ∷ is) x = all_attends-replay ref is (attends ref i x)

module _ (Event : Type 0) ⦃events : AsyncEvent Event⦄ ⦃buffers : BufferCopy⦄ (role : Role)
    (tag : Bytes) (before : List Input) (id : ℕ) where
  abbrev pub so_far : Session Event
  so_far = after role tag before

  -- The reference of the new Stream object, and the object with nothing seen yet.
  abbrev pub opened_ref : ℕ
  opened_ref = length so_far.heap

  abbrev pub opened : Seen × Stream Event
  opened = (unseen, new_stream id (prefix_of so_far id))

  -- A new session is run by any sequence of callbacks and calls in which nghttp2 opens streams under
  -- identifiers that are not in use; after `before`, an input opens a stream under `id`, and from there on
  -- every `:status` that nghttp2 delivers is below 2^31, and no status() is called on that Stream object once it
  -- was closed without a status. Suppose that at the end, whatever happened to the session's other
  -- streams, nghttp2 has delivered a status for the stream while it was open, or has closed it. Then the event of every
  -- status() that waits on the object is set; one that is woken, not cancelled, returns the last of those
  -- statuses or, if there was none, fails with `eof` if the peer has ended the stream's body and with
  -- `stream_truncated` if not; and a new call of status() returns the last status at once, or waits if
  -- there was none.
  pub run-Answers :
      (is : List Input) (i : Input)
      → AreFresh {Event = Event} (new_session role tag) (before ++ i ∷ is)
      → Opens so_far i id
      → AreTimely opened_ref opened is
      → HasAnswer (all_attends opened_ref is opened).0
      → (get_elem? (after {Event = Event} role tag (before ++ i ∷ is)).heap opened_ref
          ≡ some (all_attends opened_ref is opened).1)
        × Answers (all_attends opened_ref is opened).0 (all_attends opened_ref is opened).1
  run-Answers is i fresh opens timely h = (
    (opened-Follows role tag before is i id fresh opens).there
        ∙ ap some (sym (all_attends-replay opened_ref is opened)),
    Inv-Answers (all_attends opened_ref is opened).0 (all_attends opened_ref is opened).1
        (all_attends-Inv opened_ref opened is timely (new_stream-Inv id (prefix_of so_far id))) h,
  )

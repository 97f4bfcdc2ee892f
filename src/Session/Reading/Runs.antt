-- ===== src/Session/Reading/Runs.antt =====
-- What readers of one Stream object of a running session are handed, and what an error tells them
-- (src/session.cpp, src/stream_impl.hpp).
use nghttp2_corosio.Base.{
  ℕ, ◌<◌, ◌≡◌, refl, sym, ap, ◌∙◌, ◌⊎◌, true, ◌||◌, some, List, [], ◌∷◌, ◌++◌, Bytes, length,
  get_elem?, if◌then◌else◌,
}
use nghttp2_corosio.Capy.{AsyncEvent, BufferCopy, ErrorCode, eof, stream_truncated}
use nghttp2_corosio.Stream.{Sink}
use nghttp2_corosio.Stream.Read.Content.{content}
use nghttp2_corosio.Stream.Read.Order.{Side, Inv}
use nghttp2_corosio.Stream.Read.Delivery.{start, start-Inv, Inv-awake}
use nghttp2_corosio.Session.{Session, Role, new_session, prefix_of}
use nghttp2_corosio.Session.Inputs.{Input}
use nghttp2_corosio.Session.Lifetime.{after}
use nghttp2_corosio.Session.Preservation.{AreFresh}
use nghttp2_corosio.Session.Isolation.{replay}
use nghttp2_corosio.Session.Isolation.Opening.{Opens, opened-Follows}
use nghttp2_corosio.Session.Reading.{takes, all_takes, AreInTurn}
use nghttp2_corosio.Session.Reading.Steps.{takes-Inv, takes-evolve}

module _ {Event : Type 0} ⦃events : AsyncEvent Event⦄ ⦃buffers : BufferCopy⦄ where
  all_takes-Inv :
      (ref : ℕ) (x : Side Event) (is : List Input)
      → AreInTurn ref x is
      → Inv x
      → Inv (all_takes ref is x)
  all_takes-Inv ref x [] turns v = v
  all_takes-Inv ref x (i ∷ is) turns v =
      all_takes-Inv ref (takes ref i x) is turns.1 (takes-Inv ref x i turns.0 v)

  all_takes-replay :
      (ref : ℕ) (is : List Input) (x : Side Event)
      → (all_takes ref is x).stream ≡ replay ref is x.stream
  all_takes-replay ref [] x = refl
  all_takes-replay ref (i ∷ is) x =
      all_takes-replay ref is (takes ref i x) ∙ ap (replay ref is) (takes-evolve ref i x)

  -- The object holds what the history says; its readers were handed what arrived, in order, and the
  -- window was credited with it.
  pub record IsInOrder (ref : ℕ) (y : Session Event) (x : Side Event) : Type 0 where
    pub holds : get_elem? y.heap ref ≡ some x.stream
    pub in_order : x.taken ++ content x.stream ≡ x.arrived
    pub credited : x.credited ≡ length x.taken

  -- An error of a reader, after which nothing is missing.
  pub record IsFinal (x : Side Event) (e : ErrorCode) : Type 0 where
    pub all_taken : x.taken ≡ x.arrived
    pub is_over : (x.stream.read_eof || x.stream.closed) ≡ true
    pub error : e ≡ (if x.stream.read_eof then eof else stream_truncated)

-- A new session is run by `before`, and the next input opens a stream under `id`.
module _ (Event : Type 0) ⦃events : AsyncEvent Event⦄ ⦃buffers : BufferCopy⦄ (role : Role)
    (tag : Bytes) (before : List Input) (id : ℕ) where
  abbrev pub so_far : Session Event
  so_far = after role tag before

  -- The reference of the new Stream object, and the object with the history of its reads, still empty.
  abbrev pub opened_ref : ℕ
  opened_ref = length so_far.heap

  abbrev pub opened : Side Event
  opened = start id (prefix_of so_far id)

  taken_from-Inv :
      (is : List Input) → AreInTurn opened_ref opened is → Inv (all_takes opened_ref is opened)
  taken_from-Inv is turns =
      all_takes-Inv opened_ref opened is turns (start-Inv id (prefix_of so_far id))

  -- A new session is run by any sequence of callbacks and calls in which nghttp2 opens streams under
  -- identifiers that are not in use; after `before`, an input opens a stream under `id`, and from there on
  -- a read starts on that Stream object only when no other waits, and a waiting one goes on only when its
  -- event is set or it is cancelled. At the end, whatever happened to the session's other streams: the
  -- bytes that the object's readers were handed, then those that it still holds, are the body bytes that
  -- arrived for `id` while the stream was open, in order; and nghttp2 was told to credit the stream's
  -- window with exactly the bytes handed over.
  pub run-IsInOrder :
      (is : List Input) (i : Input)
      → AreFresh {Event = Event} (new_session role tag) (before ++ i ∷ is)
      → Opens so_far i id
      → AreInTurn opened_ref opened is
      → IsInOrder {Event = Event} opened_ref
          (after role tag (before ++ i ∷ is))
          (all_takes opened_ref is opened)
  unfolding start
  run-IsInOrder is i fresh opens turns =
      let v = taken_from-Inv is turns in
      record {
        holds =
            (opened-Follows role tag before is i id fresh opens).there
            ∙ ap some (sym (all_takes-replay opened_ref is opened));
        in_order = v.order;
        credited = v.credit;
      }

  -- A new session is run by any sequence of callbacks and calls in which nghttp2 opens streams under
  -- identifiers that are not in use; after `before`, an input opens a stream under `id`, and from there on
  -- a read starts on that Stream object only when no other waits, and a waiting one goes on only when its
  -- event is set or it is cancelled. If at the end, whatever happened to the session's other streams, a
  -- read waits on the object and there is something for it (bytes in its buffers, the end of the
  -- body, or the close), its event is set: no wake-up is lost.
  pub run-reader_awake :
      (is : List Input) (i : Input) (k : Sink)
      → AreFresh {Event = Event} (new_session role tag) (before ++ i ∷ is)
      → Opens so_far i id
      → AreInTurn opened_ref opened is
      → let x : Side Event = all_takes opened_ref is opened in
        x.stream.read_sink ≡ some k
        → (0 < length k.copied) ⊎ ((x.stream.read_eof || x.stream.closed) ≡ true)
        → (get_elem? (after {Event = Event} role tag (before ++ i ∷ is)).heap opened_ref
            ≡ some x.stream)
          × (events.is_set x.stream.read_ready ≡ true)
  run-reader_awake is i k fresh opens turns waits something = (
    (run-IsInOrder is i fresh opens turns).holds,
    Inv-awake k (taken_from-Inv is turns) waits something,
  )

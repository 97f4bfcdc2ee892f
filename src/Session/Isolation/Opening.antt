-- ===== src/Session/Isolation/Opening.antt =====
-- The two ways in which a stream enters the table of a session (src/session.cpp): a request that
-- arrives at a server, and one that nghttp2 accepts from a client.
use nghttp2_corosio.Base.{
  ℕ, ◌≡◌, refl, ap, ◌∙◌, inr, true, none, List, [], ◌∷◌, ◌++◌, arith, Bytes, length, get_elem?,
  get_elem?-append_last, ◌&&◌,
}
use nghttp2_corosio.Capy.{AsyncEvent, BufferCopy}
use nghttp2_corosio.Stream.{Stream, new_stream, set_id}
use nghttp2_corosio.Session.{
  Session, Role, client, new_session, lookup, emplace, at, create_stream, prefix_of, call,
  start_write,
}
use nghttp2_corosio.Session.Callbacks.{is_headers, is_request, on_begin_headers}
use nghttp2_corosio.Session.Submit.{
  assigned, refused, submit_request_for, request_submitted, make_placeholder,
}
use nghttp2_corosio.Session.Inputs.{
  Input, begin_headers, header, frame_recv, data_chunk, stream_close, pull, response, request, read,
  wake_read, write, wake_write, ask_status, step, run,
}
use nghttp2_corosio.Session.Lifetime.{after, new_session-Good}
use nghttp2_corosio.Session.Preservation.{Good, IsFresh, AreFresh, step-Good, run-Good}
use nghttp2_corosio.Session.Table.{lookup-emplace, update-append_last}
use nghttp2_corosio.Session.Isolation.{replay}
use nghttp2_corosio.Session.Isolation.Routing.{Follows}
use nghttp2_corosio.Session.Isolation.Runs.{run-Follows}

module _ {Event : Type 0} where
  -- The input opens a stream under that identifier.
  abbrev pub Opens : Session Event → Input → ℕ → Type 0
  Opens x (begin_headers f) id =
      ((is_headers f.type && is_request f.category) ≡ true) × (f.stream_id ≡ id)
  Opens x (request (assigned k) path n headers) id = (x.role ≡ client) × (k ≡ id)
  Opens x (request refused path n headers) id = ⊥
  Opens x (header k name value) id = ⊥
  Opens x (frame_recv f) id = ⊥
  Opens x (data_chunk k bytes) id = ⊥
  Opens x (stream_close k) id = ⊥
  Opens x (pull ref size) id = ⊥
  Opens x (response done ref status headers) id = ⊥
  Opens x (read ref room) id = ⊥
  Opens x (wake_read ref ec) id = ⊥
  Opens x (write ref bytes end) id = ⊥
  Opens x (wake_write ref ec) id = ⊥
  Opens x (ask_status ref) id = ⊥

  entered-Follows :
      (x y : Session Event) (s : Stream Event)
      → lookup s.id x.streams ≡ none
      → y.heap ≡ x.heap ++ s ∷ []
      → y.streams ≡ emplace s.id (length x.heap) x.streams
      → Good y
      → Follows (length x.heap) y s
  entered-Follows x y s fresh h m good = record {
    good = good;
    there = ap (λ l. get_elem? l (length x.heap)) h ∙ get_elem?-append_last x.heap s;
    listed = inr (
        ap (lookup s.id) m
        ∙ lookup-emplace s.id (length x.heap) s.id x.streams fresh
        ∙ ground arith);
  }

module _ {Event : Type 0} ⦃events : AsyncEvent Event⦄ ⦃buffers : BufferCopy⦄ where
  -- The stream that such an input makes is new, and the last object of the store.
  pub step-Opens :
      (x : Session Event) (i : Input) (id : ℕ)
      → IsFresh x i
      → Opens x i id
      → Good x
      → Follows (length x.heap) (step x i) (new_stream id (prefix_of x id))
  unfolding step on_begin_headers create_stream submit_request_for request_submitted
      make_placeholder call start_write at set_id new_stream
  step-Opens x (begin_headers f) id fresh (e, same) good = rw (← same) (
      entered-Follows x _ (new_stream f.stream_id (prefix_of x f.stream_id)) (fresh e) (rw e refl)
        (rw e refl) (step-Good x (begin_headers f) fresh good))
  step-Opens x (request (assigned k) path n headers) id fresh (e, same) good = rw (← same) (
      entered-Follows x _ (new_stream k (prefix_of x k)) fresh
        (rw (e, submit_request_for) (update-append_last x.heap _ _))
        (rw (e, submit_request_for) refl)
        (step-Good x (request (assigned k) path n headers) fresh good))
  step-Opens x (request refused path n headers) id fresh o good = absurd o
  step-Opens x (header k name value) id fresh o good = absurd o
  step-Opens x (frame_recv f) id fresh o good = absurd o
  step-Opens x (data_chunk k bytes) id fresh o good = absurd o
  step-Opens x (stream_close k) id fresh o good = absurd o
  step-Opens x (pull ref size) id fresh o good = absurd o
  step-Opens x (response done ref status headers) id fresh o good = absurd o
  step-Opens x (read ref room) id fresh o good = absurd o
  step-Opens x (wake_read ref ec) id fresh o good = absurd o
  step-Opens x (write ref bytes end) id fresh o good = absurd o
  step-Opens x (wake_write ref ec) id fresh o good = absurd o
  step-Opens x (ask_status ref) id fresh o good = absurd o

  pub run-append : (x : Session Event) (is js : List Input) → run x (is ++ js) ≡ run (run x is) js
  unfolding run
  run-append x [] js = refl
  run-append x (i ∷ is) js = run-append (step x i) is js

  pub AreFresh-split :
      (x : Session Event) (is js : List Input)
      → AreFresh x (is ++ js)
      → AreFresh x is × AreFresh (run x is) js
  unfolding run
  AreFresh-split x [] js fresh = (tt, fresh)
  AreFresh-split x (i ∷ is) js fresh =
      let rest = AreFresh-split (step x i) is js fresh.1 in ((fresh.0, rest.0), rest.1)

  pub opened-start :
      (role : Role) (tag : Bytes) (before is : List Input) (i : Input) (id : ℕ)
      → AreFresh {Event = Event} (new_session role tag) (before ++ i ∷ is)
      → let x : Session Event = after role tag before in
        Opens x i id
        → Follows (length x.heap) (step x i) (new_stream id (prefix_of x id))
          × AreFresh (step x i) is
  opened-start role tag before is i id fresh opens =
      let x : Session Event = after role tag before in
      let (old, rest) = AreFresh-split (new_session role tag) before (i ∷ is) fresh in
      let good = run-Good (new_session role tag) before old (new_session-Good role tag) in
      (step-Opens x i id rest.0 opens good, rest.1)

  -- An object that is opened in the run of a new session, at the end of the run.
  pub opened-Follows :
      (role : Role) (tag : Bytes) (before is : List Input) (i : Input) (id : ℕ)
      → AreFresh {Event = Event} (new_session role tag) (before ++ i ∷ is)
      → let x : Session Event = after role tag before in
        Opens x i id
        → Follows {Event = Event}
            (length x.heap)
            (after role tag (before ++ i ∷ is))
            (replay (length x.heap) is (new_stream id (prefix_of x id)))
  unfolding run
  opened-Follows role tag before is i id fresh opens =
      let x : Session Event = after role tag before in
      let (v, later) = opened-start role tag before is i id fresh opens in
      rw (run-append (new_session role tag) before (i ∷ is))
        (run-Follows (length x.heap) (step x i) is _ later v)

-- ===== src/Session/Lifetime.antt =====
-- The streams of a session (src/session.cpp) over any sequence of callbacks and calls, up to the end
-- of run().
use nghttp2_corosio.Base.{
  ℕ, ◌≡◌, refl, ap, ◌∙◌, ◌⊎◌, inl, inr, ◌≢◌, true, none, some, List, [], ◌∷◌, arith, Bytes,
  get_elem?, ℕ_discrete,
}
use nghttp2_corosio.Capy.{AsyncEvent, BufferCopy}
use nghttp2_corosio.Stream.{Stream, on_close}
use nghttp2_corosio.Session.{
  Session, Role, new_session, lookup, update, find_stream, at, close_stream, close_all, end_run,
}
use nghttp2_corosio.Session.Inputs.{Input, run}
use nghttp2_corosio.Session.Table.{
  lookup-erase, get_elem?-update_ne, get_elem?-update_self, get_elem?-update_inv,
}
use nghttp2_corosio.Session.WellFormed.{IsTracked, IsSettled, IsOpen-some}
use nghttp2_corosio.Session.Preservation.{Good, AreFresh, run-Good}

module _ {Event : Type 0} ⦃events : AsyncEvent Event⦄ where
  -- Closed, with everything awake that may wait on the stream.
  pub record IsReleased (s : Stream Event) : Type 0 where
    pub is_closed : s.closed ≡ true
    pub reader_awake : events.is_set s.read_ready ≡ true
    pub writer_awake : events.is_set s.write_progress ≡ true
    pub status_awake : events.is_set s.status_ready ≡ true

  on_close-IsReleased : (s : Stream Event) → IsReleased (on_close s)
  unfolding on_close
  on_close-IsReleased s = record {
    is_closed = refl;
    reader_awake = events.is_set-set s.read_ready;
    writer_awake = events.is_set-set s.write_progress;
    status_awake = events.is_set-set s.status_ready;
  }

  pub new_session-Good : (role : Role) (tag : Bytes) → Good {Event = Event} (new_session role tag)
  unfolding new_session lookup
  new_session-Good role tag = record {
    distinct = tt;
    open_streams = λ id ref e. absurd (cc);
    tracked = λ ref s e. absurd (cc);
  }

  close_all-IsTracked :
      (m : List (ℕ × ℕ)) (x : Session Event)
      → ((ref : ℕ) (s : Stream Event) → get_elem? x.heap ref ≡ some s → IsTracked m ref s)
      → (ref : ℕ) (s : Stream Event) → get_elem? (close_all m x).heap ref ≡ some s
      → IsSettled s
  unfolding close_all
  close_all-IsTracked [] x h ref s e = unfold lookup in ground (arith, h ref s e)
  close_all-IsTracked ((k, r) ∷ m) x h ref s e =
      close_all-IsTracked m (at r on_close x)
        (λ i t f. elim (get_elem?-update_inv r i on_close x.heap t f) [
          | inl (u, same, there, made) ↦ inl (unfold on_close in ground arith)
          | inr (differ, there) ↦ unfold lookup in ground (arith, h i t there)
        ])
        ref s e

  close_all-streams : (m : List (ℕ × ℕ)) (x : Session Event) → (close_all m x).streams ≡ x.streams
  unfolding close_all
  close_all-streams [] x = refl
  close_all-streams ((k, r) ∷ m) x = close_all-streams m (at r on_close x)

  close_stream_at :
      (x : Session Event) (id ref : ℕ)
      → Good x
      → find_stream x id ≡ some ref
      → (find_stream (close_stream id x) id ≡ none)
        × ((s : Stream Event) × (get_elem? (close_stream id x).heap ref ≡ some s) × IsReleased s)
        × ((j : ℕ) → id ≢ j → find_stream (close_stream id x) j ≡ find_stream x j)
        × ((i : ℕ) → ref ≢ i → get_elem? (close_stream id x).heap i ≡ get_elem? x.heap i)
  unfolding close_stream
  close_stream_at x id ref v found =
      let (s, there, _, _) = IsOpen-some id _ (v.open_streams id ref found) in
      rw (found, close_stream)
        (
          ground (arith, lookup-erase id id x.streams v.distinct),
          (on_close s, get_elem?-update_self ref on_close x.heap there, on_close-IsReleased s),
          λ j differ. ground (arith, differ, lookup-erase id j x.streams v.distinct),
          λ i differ. get_elem?-update_ne ref i on_close x.heap differ,
        )

  close_all-IsReleased :
      (m : List (ℕ × ℕ)) (x : Session Event) (id ref : ℕ) (s : Stream Event)
      → get_elem? x.heap ref ≡ some s
      → IsReleased s ⊎ (lookup id m ≡ some ref)
      → (s' : Stream Event) × (get_elem? (close_all m x).heap ref ≡ some s') × IsReleased s'
  unfolding close_all
  close_all-IsReleased [] x id ref s e (inl done) = (s, e, done)
  close_all-IsReleased [] x id ref s e (inr l) = unfold lookup in absurd (cc)
  close_all-IsReleased ((k, r) ∷ m) x id ref s e w = elim (ℕ_discrete r ref) [
    | yes same ↦
        close_all-IsReleased m (at r on_close x) id ref (on_close s)
          (ap (λ i. get_elem? (update i on_close x.heap) ref) same
            ∙ get_elem?-update_self ref on_close x.heap e)
          (inl (on_close-IsReleased s))
    | no differ ↦
        close_all-IsReleased m (at r on_close x) id ref s
          (get_elem?-update_ne r ref on_close x.heap differ ∙ e)
          (elim w [ inl done ↦ inl done | inr l ↦ inr (unfold lookup in ground arith) ])
  ]

module _ {Event : Type 0} ⦃events : AsyncEvent Event⦄ ⦃buffers : BufferCopy⦄ where
  -- A session after a sequence of callbacks and calls.
  abbrev pub after : Role → Bytes → List Input → Session Event
  after role tag is = run (new_session role tag) is

  -- In any sequence of callbacks and calls on a new session in which nghttp2 opens streams under
  -- identifiers that are not in use: no identifier is twice in the table, every entry of the table
  -- leads to a Stream of that identifier that is not closed, and every Stream that was made is
  -- closed, in the table under its identifier, or of identifier 0 (the placeholder of a request that
  -- nghttp2 refused).
  pub run-Good_new :
      (role : Role) (tag : Bytes) (is : List Input)
      → AreFresh {Event = Event} (new_session role tag) is
      → Good {Event = Event} (after role tag is)
  run-Good_new role tag is fresh =
      run-Good (new_session role tag) is fresh (new_session-Good role tag)

  -- After any sequence of callbacks and calls on a new session in which nghttp2 opens streams under
  -- identifiers that are not in use, the end of run() leaves no stream in the table, and every Stream that
  -- the session ever made is closed, or is the placeholder of a refused request.
  pub end_run-IsSettled :
      (role : Role) (tag : Bytes) (is : List Input) (id ref : ℕ) (s : Stream Event)
      → AreFresh {Event = Event} (new_session role tag) is
      → get_elem? (end_run {Event = Event} (after role tag is)).heap ref ≡ some s
      → (find_stream (end_run {Event = Event} (after role tag is)) id ≡ none) × IsSettled s
  unfolding end_run find_stream
  end_run-IsSettled role tag is id ref s fresh made =
      let x = after role tag is in
      (
        ap (lookup id) (close_all-streams x.streams (record x { streams = [] })),
        close_all-IsTracked x.streams (record x { streams = [] })
            (run-Good_new role tag is fresh).tracked ref s made,
      )

  -- After any sequence of callbacks and calls on a new session in which nghttp2 opens streams under
  -- identifiers that are not in use, the end of run() closes each stream that is in the table then,
  -- and sets all three events that a reader, a writer or a request waiting for its status may wait for.
  pub end_run-IsReleased :
      (role : Role) (tag : Bytes) (is : List Input) (id ref : ℕ)
      → AreFresh {Event = Event} (new_session role tag) is
      → find_stream {Event = Event} (after role tag is) id ≡ some ref
      → (s : Stream Event) × (get_elem? (end_run (after role tag is)).heap ref ≡ some s)
        × IsReleased s
  unfolding end_run find_stream
  end_run-IsReleased role tag is id ref fresh found =
      let x = after role tag is in
      let (s, there, _, _) =
        IsOpen-some id _ ((run-Good_new role tag is fresh).open_streams id ref found) in
      close_all-IsReleased x.streams (record x { streams = [] }) id ref s there (inr found)

  -- After any sequence of callbacks and calls on a new session in which nghttp2 opens streams under
  -- identifiers that are not in use, close_stream() on an identifier of the table removes it from there,
  -- and closes its Stream, with the events of all its waiters set.
  pub close_stream_lem :
      (role : Role) (tag : Bytes) (is : List Input) (id ref : ℕ)
      → AreFresh {Event = Event} (new_session role tag) is
      → find_stream {Event = Event} (after role tag is) id ≡ some ref
      → let x = close_stream {Event = Event} id (after role tag is) in
        (find_stream x id ≡ none)
        × (s : Stream Event) × (get_elem? x.heap ref ≡ some s)
        × IsReleased s
  close_stream_lem role tag is id ref fresh found =
      let r = close_stream_at (after role tag is) id ref (run-Good_new role tag is fresh) found in
      let (s, there, released) = r.1 in (r.0, s, there, released)

  -- After any sequence of callbacks and calls on a new session in which nghttp2 opens streams under
  -- identifiers that are not in use, close_stream() on an identifier of the table changes no other
  -- entry of the table and no other Stream.
  close_stream_others :
      (role : Role) (tag : Bytes) (is : List Input) (id ref other_id other_ref : ℕ)
      → AreFresh {Event = Event} (new_session role tag) is
      → find_stream {Event = Event} (after role tag is) id ≡ some ref
      → id ≢ other_id
      → ref ≢ other_ref
      → let x : Session Event = after role tag is in
        (find_stream (close_stream id x) other_id ≡ find_stream x other_id)
        × (get_elem? (close_stream id x).heap other_ref ≡ get_elem? x.heap other_ref)
  close_stream_others role tag is id ref other_id other_ref fresh found differ differs =
      let r = close_stream_at (after role tag is) id ref (run-Good_new role tag is fresh) found in
      (r.2 other_id differ, r.3 other_ref differs)

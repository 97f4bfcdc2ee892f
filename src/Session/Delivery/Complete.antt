-- ===== src/Session/Delivery/Complete.antt =====
-- The end of the body of a stream of a session (src/session.cpp, src/stream_impl.hpp).
use nghttp2_corosio.Base.{
  ℕ, ◌<◌, ◌≡◌, sym, ap, ◌∙◌, true, false, some, none, List, ◌++◌, append-nil, arith, Bytes, Bool,
  Option, All, get_elem?,
}
use nghttp2_corosio.Capy.{AsyncEvent, BufferCopy, ErrorCode, eof}
use nghttp2_corosio.Stream.{Stream}
use nghttp2_corosio.Stream.Read.{failed, read_some}
use nghttp2_corosio.Stream.Read.Content.{IsSound}
use nghttp2_corosio.Stream.Read.Delivery.{IsOver, read_some_failed}
use nghttp2_corosio.Session.{Session, Role, new_session, find_stream}
use nghttp2_corosio.Session.Inputs.{Input, run}
use nghttp2_corosio.Session.Lifetime.{new_session-Good}
use nghttp2_corosio.Session.Preservation.{Good, AreFresh, run-Good}
use nghttp2_corosio.Session.WellFormed.{IsOpen-some}
use nghttp2_corosio.Session.Window.Methods.{IsSound-at}
use nghttp2_corosio.Session.Window.Runs.{AreSoleReaders, run-Balance}
use nghttp2_corosio.Session.Delivery.{content_of, content_at, all_arriving, all_handed_to}
use nghttp2_corosio.Session.Delivery.Runs.{AllSpare, run-Delivers_from}

module _ {Event : Type 0} ⦃events : AsyncEvent Event⦄ ⦃buffers : BufferCopy⦄ where
  -- The reader has been handed all of the body, and the peer has ended it.
  pub record IsComplete (id ref : ℕ) (x : Session Event) (is : List Input) (s : Stream Event)
      (e : ErrorCode) : Type 0 where
    pub all_handed : all_handed_to ref x is ≡ content_at ref x.heap ++ all_arriving id is
    pub ended : s.read_eof ≡ true
    pub error : e ≡ eof

  abbrev closed_of : Option (Stream Event) → Bool
  closed_of none = true
  closed_of (some s) = s.closed

  eof_of_open :
      (s : Stream Event) (e : ErrorCode)
      → s.closed ≡ false
      → IsOver s e
      → (s.read_eof ≡ true) × (e ≡ eof)
  eof_of_open s e c (over, why) =
      let ended : s.read_eof ≡ true = ground arith in (ended, ground arith)

  run-IsComplete_from :
      (id ref room : ℕ) (x : Session Event) (is : List Input) (s : Stream Event) (e : ErrorCode)
      → AreFresh x is
      → AreSoleReaders x is
      → AllSpare id is
      → Good x
      → All IsSound x.heap
      → find_stream x id ≡ some ref
      → get_elem? (run x is).heap ref ≡ some s
      → s.read_sink ≡ none
      → 0 < room
      → (read_some room s).1 ≡ failed e
      → IsComplete id ref x is s e
  unfolding find_stream
  run-IsComplete_from id ref room x is s e fresh alone spared good sound found there idle h f =
      let v = run-Delivers_from id ref x is fresh alone spared good sound found in
      let w = run-Balance id x is fresh alone good sound in
      let (empty, over) =
        read_some_failed room s e (IsSound-at ref (run x is).heap w.sound there) idle h f in
      let (t, at_ref, _, live) =
        IsOpen-some id _ ((run-Good x is fresh good).open_streams id ref v.still_open) in
      let same : some s ≡ some t = sym there ∙ at_ref in
      let still : s.closed ≡ false = ap closed_of same ∙ live in
      let (ended, error) = eof_of_open s e still over in
      record {
        all_handed =
            sym (append-nil _)
            ∙ ap (λ l. all_handed_to ref x is ++ l) (sym (ap content_of there ∙ empty))
            ∙ v.in_order;
        ended = ended;
        error = error;
      }

pub run-IsComplete :
    (Event : Type 0) ⦃events : AsyncEvent Event⦄ ⦃buffers : BufferCopy⦄ (id ref room : ℕ)
    (role : Role) (tag : Bytes) (before is : List Input) (s : Stream Event) (e : ErrorCode)
    → AreFresh {Event = Event} (new_session role tag) before
    → AreSoleReaders {Event = Event} (new_session role tag) before
    → let x : Session Event = run (new_session role tag) before in
      AreFresh x is
      → AreSoleReaders x is
      → AllSpare id is
      → find_stream x id ≡ some ref
      → get_elem? (run x is).heap ref ≡ some s
      → s.read_sink ≡ none
      → 0 < room
      → (read_some room s).1 ≡ failed e
      → IsComplete id ref x is s e
run-IsComplete Event id ref room role tag before is s e fresh alone fresh' alone' spared found there
      idle h f =
    let start : Good {Event = Event} (new_session role tag) = new_session-Good role tag in
    run-IsComplete_from id ref room (run (new_session role tag) before) is s e fresh' alone' spared
      (run-Good (new_session role tag) before fresh start)
      (run-Balance id (new_session role tag) before fresh alone start
        (unfold new_session in tt)).sound
      found there idle h f

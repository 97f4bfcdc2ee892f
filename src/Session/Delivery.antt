-- ===== src/Session/Delivery.antt =====
-- The body of one stream of a session (src/session.cpp, src/stream_impl.hpp): what nghttp2 delivers for
-- an identifier, what the reader of a Stream object is handed, and what the object holds.
pub mod Callbacks
pub mod Calls
pub mod Table
pub mod Steps
pub mod Runs
pub mod Complete
use nghttp2_corosio.Base.{
  ℕ, zero, suc, ◌≡◌, ◌≢◌, refl, sym, ap, ◌∙◌, inl, inr, Bool, true, false, Option, none, some, List,
  [], ◌∷◌, ◌++◌, append_assoc, append-nil, arith, Bytes, All, length, get_elem?, get_elem?_lt,
  get_elem?-append_left, ◌==◌, Bool-cases, ==_iff, Option-cases, if◌then◌else◌,
}
use nghttp2_corosio.Capy.{AsyncEvent, BufferCopy, ErrorCode}
use nghttp2_corosio.Stream.{Stream}
use nghttp2_corosio.Stream.Read.{read_some, resume_read}
use nghttp2_corosio.Stream.Read.Content.{content, handed, IsSound}
use nghttp2_corosio.Session.{Session, update}
use nghttp2_corosio.Session.Inputs.{
  Input, begin_headers, header, frame_recv, data_chunk, stream_close, pull, response, request, read,
  wake_read, write, wake_write, ask_status, step,
}
use nghttp2_corosio.Session.Window.{Neutral}
use nghttp2_corosio.Session.Table.{get_elem?-update_ne, get_elem?-update_self}

-- The body bytes that nghttp2 delivers for the stream `id`, in order.
abbrev pub arriving : ℕ → Input → Bytes
arriving id (data_chunk k bytes) = if k == id then bytes else []
arriving id (begin_headers f) = []
arriving id (header k name value) = []
arriving id (frame_recv f) = []
arriving id (stream_close k) = []
arriving id (pull ref size) = []
arriving id (response done ref status headers) = []
arriving id (request answer path n headers) = []
arriving id (read ref room) = []
arriving id (wake_read ref ec) = []
arriving id (write ref bytes end) = []
arriving id (wake_write ref ec) = []
arriving id (ask_status ref) = []

abbrev pub all_arriving : ℕ → List Input → Bytes
all_arriving id [] = []
all_arriving id (i ∷ is) = arriving id i ++ all_arriving id is

module _ {Event : Type 0} where
  abbrev pub content_of : Option (Stream Event) → Bytes
  content_of none = []
  content_of (some s) = content s

  -- What the Stream object at a reference holds for its reader.
  abbrev pub content_at : ℕ → List (Stream Event) → Bytes
  content_at ref heap = content_of (get_elem? heap ref)

  abbrev pub with_object : (Stream Event → Bytes) → Option (Stream Event) → Bytes
  with_object h none = []
  with_object h (some s) = h s

  pub content_at-update :
      (ref r : ℕ) (f : Stream Event → Stream Event) (heap : List (Stream Event)) {s : Stream Event}
      → get_elem? heap r ≡ some s
      → content_at ref (update r f heap) ≡ (if r == ref then content (f s) else content_at ref heap)
  content_at-update ref r f heap {s} e = elim (Bool-cases (r == ref)) [
    | inl here ↦ rw here (
        ap (λ i. content_at i (update r f heap)) (sym ((==_iff r ref).0 here))
        ∙ ap content_of (get_elem?-update_self r f heap e))
    | inr away ↦ rw away (ap content_of (get_elem?-update_ne r ref f heap (ground arith)))
  ]

  pub content_at-update-Neutral :
      (ref r : ℕ) (f : Stream Event → Stream Event) (heap : List (Stream Event))
      → Neutral f
      → All IsSound heap
      → content_at ref (update r f heap) ≡ content_at ref heap
  unfolding update
  content_at-update-Neutral ref r f [] h v = refl
  content_at-update-Neutral zero zero f (s ∷ heap) h v = (h s v.0).1
  content_at-update-Neutral (suc ref) zero f (s ∷ heap) h v = refl
  content_at-update-Neutral zero (suc r) f (s ∷ heap) h v = refl
  content_at-update-Neutral (suc ref) (suc r) f (s ∷ heap) h v =
      content_at-update-Neutral ref r f heap h v.1

  pub content_at-append :
      (ref : ℕ) (s0 : Stream Event) (heap : List (Stream Event))
      → content s0 ≡ []
      → content_at ref (heap ++ s0 ∷ []) ≡ content_at ref heap
  content_at-append zero s0 [] e = e
  content_at-append (suc ref) s0 [] e = refl
  content_at-append zero s0 (t ∷ heap) e = refl
  content_at-append (suc ref) s0 (t ∷ heap) e = content_at-append ref s0 heap e

module _ {Event : Type 0} ⦃events : AsyncEvent Event⦄ ⦃buffers : BufferCopy⦄ where
  abbrev pub handed_by_read : ℕ → Stream Event → Bytes
  handed_by_read room s = handed (read_some room s).1

  abbrev pub handed_by_wake : Option ErrorCode → Stream Event → Bytes
  handed_by_wake ec s = elim (resume_read ec s) [ none ↦ [] | some r ↦ handed r.1 ]

  -- The bytes that the reader of the object at `ref` is handed by an input.
  abbrev pub handed_to : ℕ → Session Event → Input → Bytes
  handed_to ref x (read r room) =
      if r == ref then with_object (handed_by_read room) (get_elem? x.heap r) else []
  handed_to ref x (wake_read r ec) =
      if r == ref then with_object (handed_by_wake ec) (get_elem? x.heap r) else []
  handed_to ref x (begin_headers f) = []
  handed_to ref x (header k name value) = []
  handed_to ref x (frame_recv f) = []
  handed_to ref x (data_chunk k bytes) = []
  handed_to ref x (stream_close k) = []
  handed_to ref x (pull r size) = []
  handed_to ref x (response done r status headers) = []
  handed_to ref x (request answer path n headers) = []
  handed_to ref x (write r bytes end) = []
  handed_to ref x (wake_write r ec) = []
  handed_to ref x (ask_status r) = []

  abbrev pub all_handed_to : ℕ → Session Event → List Input → Bytes
  all_handed_to ref x [] = []
  all_handed_to ref x (i ∷ is) = handed_to ref x i ++ all_handed_to ref (step x i) is

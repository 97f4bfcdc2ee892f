-- ===== src/Session/Isolation/Callbacks.antt =====
-- The object at a reference after the callbacks of src/session.cpp that take a header or a frame.
use nghttp2_corosio.Base.{
  ℕ, refl, sym, inl, inr, ◌&&◌, ◌||◌, Option, none, some, Bytes, same, if◌then◌else◌, Bool-cases,
}
use nghttp2_corosio.Capy.{AsyncEvent}
use nghttp2_corosio.Stream.{
  Stream, set_path, set_status, set_content_length, add_header, on_read_eof,
}
use nghttp2_corosio.Session.{Session, find_stream, with_stream, dispatch_request}
use nghttp2_corosio.Session.Callbacks.{
  Frame, is_headers, is_data, is_request, starts_with, path_name, status_name, content_length_name,
  status_of, content_length_of, on_content_length, on_header, dispatch_found, on_frame_recv,
}
use nghttp2_corosio.Session.Preservation.{Keeps}
use nghttp2_corosio.Session.Isolation.{addressed, take_length, take_header, take_frame}
use nghttp2_corosio.Session.Isolation.Routing.{
  Follows, Follows-along, Follows-kept, addressed-addressed, addressed_id, with_stream-Follows,
}

module _ {Event : Type 0} ⦃events : AsyncEvent Event⦄ where
  take_length-Follows :
      (ref k : ℕ) (n : Option ℕ) (x : Session Event) (s : Stream Event)
      → Follows ref x s
      → Follows ref (on_content_length k n x) (addressed k (take_length n) s)
  unfolding on_content_length
  take_length-Follows ref k none x s v = Follows-along ref x (addressed_id k s) v
  take_length-Follows ref k (some n) x s v =
      with_stream-Follows ref k (set_content_length n) x s
        (unfold set_content_length in λ t. (refl, refl)) v

  take_length-Keeps : (n : Option ℕ) → Keeps {Event = Event} (take_length n)
  unfolding set_content_length
  take_length-Keeps none s = (refl, refl)
  take_length-Keeps (some n) s = (refl, refl)

  pub on_header-Follows :
      (ref k : ℕ) (name value : Bytes) (x : Session Event) (s : Stream Event)
      → Follows ref x s
      → Follows ref (on_header k name value x) (addressed k (take_header name value) s)
  unfolding on_header
  on_header-Follows ref k name value x s v = elim (Bool-cases (same name path_name)) [
    | inl e ↦
        rw e
          (with_stream-Follows ref k (set_path value) x s (unfold set_path in λ t. (refl, refl)) v)
    | inr e ↦ rw e (elim (Bool-cases (same name status_name)) [
      | inl e ↦ rw e (
          with_stream-Follows ref k (set_status (status_of value)) x s
            (unfold set_status in λ t. (refl, refl)) v)
      | inr e ↦ rw e (elim (Bool-cases (starts_with b':' name)) [
        | inl e ↦ rw e (Follows-along ref x (addressed_id k s) v)
        | inr e ↦ rw e (elim (Bool-cases (same name content_length_name)) [
          | inl e ↦ rw e (
              Follows-along ref _
                (sym (
                  addressed-addressed k (take_length n) (add_header name value) s
                    (take_length-Keeps n)))
                (added _ _ (take_length-Follows ref k n x s v)))
          | inr e ↦ rw e (added x s v)
        ])
      ])
    ])
  ]
    where
      n : Option ℕ
      n = content_length_of value

      added :
          (y : Session Event) (t : Stream Event)
          → Follows ref y t
          → Follows ref
              (with_stream k (add_header name value) y)
              (addressed k (add_header name value) t)
      added y t w =
          with_stream-Follows ref k (add_header name value) y t
            (unfold add_header in λ u. (refl, refl)) w

  dispatch_found-Follows :
      (ref : ℕ) (o : Option ℕ) (x : Session Event) (s : Stream Event)
      → Follows ref x s
      → Follows ref (dispatch_found o x) s
  unfolding dispatch_found dispatch_request
  dispatch_found-Follows ref none x s v = v
  dispatch_found-Follows ref (some r) x s v = Follows-kept ref x _ s refl refl v.good v

  pub on_frame_recv-Follows :
      (ref : ℕ) (f : Frame) (x : Session Event) (s : Stream Event)
      → Follows ref x s
      → Follows ref (on_frame_recv f x) (addressed f.stream_id (take_frame f) s)
  unfolding on_frame_recv
  on_frame_recv-Follows ref f x s v =
      elim (Bool-cases (is_headers f.type && is_request f.category)) [
        | inl e ↦ rw e (ended _ (dispatch_found-Follows ref (find_stream x f.stream_id) x s v))
        | inr e ↦ rw e (ended x v)
      ]
    where
      ended :
          (y : Session Event)
          → Follows ref y s
          → Follows ref
              (if (is_headers f.type || is_data f.type) && f.end_stream
                then with_stream f.stream_id on_read_eof y
                else y)
              (addressed f.stream_id (take_frame f) s)
      ended y w = elim (Bool-cases ((is_headers f.type || is_data f.type) && f.end_stream)) [
        | inl e ↦ rw e (
            with_stream-Follows ref f.stream_id on_read_eof y s
              (unfold on_read_eof in λ t. (refl, refl)) w)
        | inr e ↦ rw e (Follows-along ref y (addressed_id f.stream_id s) w)
      ]

-- ===== src/Session/Signals/Callbacks.antt =====
-- The callbacks of src/session.cpp that ask nothing of nghttp2.
use nghttp2_corosio.Base.{
  ℕ, ◌≡◌, refl, ◌∙◌, inl, inr, ◌&&◌, ◌||◌, Option, none, some, Bytes, Option-cases, Bool-cases,
  same, if◌then◌else◌,
}
use nghttp2_corosio.Capy.{AsyncEvent}
use nghttp2_corosio.Stream.{set_path, set_status, set_content_length, add_header, on_read_eof}
use nghttp2_corosio.Session.{
  Session, lookup, find_stream, with_stream, at, create_stream, close_stream, dispatch_request,
}
use nghttp2_corosio.Session.Callbacks.{
  Frame, is_headers, is_data, is_request, starts_with, path_name, status_name, content_length_name,
  content_length_of, status_of, on_begin_headers, on_content_length, on_header, dispatch_found,
  on_frame_recv,
}
use nghttp2_corosio.Session.Signals.{with_stream-Effects}

module _ {Event : Type 0} ⦃events : AsyncEvent Event⦄ where
  -- An input that asks nothing of nghttp2.
  abbrev pub Leaves : Session Event → Session Event → Type 0
  Leaves x y = (y.native ≡ x.native) × (y.write_ready ≡ x.write_ready)

  pub on_begin_headers-Leaves : (f : Frame) (x : Session Event) → Leaves x (on_begin_headers f x)
  unfolding on_begin_headers create_stream
  on_begin_headers-Leaves f x = elim (Bool-cases (is_headers f.type && is_request f.category)) [
    | inl e ↦ rw e (refl, refl)
    | inr e ↦ rw e (refl, refl)
  ]

  on_content_length-Leaves :
      (id : ℕ) (n : Option ℕ) (x : Session Event) → Leaves x (on_content_length id n x)
  unfolding on_content_length
  on_content_length-Leaves id none x = (refl, refl)
  on_content_length-Leaves id (some n) x = with_stream-Effects id (set_content_length n) x

  pub on_header-Leaves :
      (id : ℕ) (name value : Bytes) (x : Session Event) → Leaves x (on_header id name value x)
  unfolding on_header
  on_header-Leaves id name value x = elim (Bool-cases (same name path_name)) [
    | inl e ↦ rw e (with_stream-Effects id (set_path value) x)
    | inr e ↦ rw e (elim (Bool-cases (same name status_name)) [
      | inl e ↦ rw e (with_stream-Effects id (set_status (status_of value)) x)
      | inr e ↦ rw e (elim (Bool-cases (starts_with b':' name)) [
        | inl e ↦ rw e (refl, refl)
        | inr e ↦ rw e (elim (Bool-cases (same name content_length_name)) [
          | inl e ↦
              let v = on_content_length-Leaves id (content_length_of value) x in
              let w =
                with_stream-Effects id (add_header name value)
                  (on_content_length id (content_length_of value) x) in
              rw e (w.0 ∙ v.0, w.1 ∙ v.1)
          | inr e ↦ rw e (with_stream-Effects id (add_header name value) x)
        ])
      ])
    ])
  ]

  dispatch_found-Leaves : (o : Option ℕ) (x : Session Event) → Leaves x (dispatch_found o x)
  unfolding dispatch_found dispatch_request
  dispatch_found-Leaves none x = (refl, refl)
  dispatch_found-Leaves (some ref) x = (refl, refl)

  pub on_frame_recv-Leaves : (f : Frame) (x : Session Event) → Leaves x (on_frame_recv f x)
  unfolding on_frame_recv
  on_frame_recv-Leaves f x = elim (Bool-cases (is_headers f.type && is_request f.category)) [
    | inl e ↦
        let v = dispatch_found-Leaves (find_stream x f.stream_id) x in
        let w = ended (dispatch_found (find_stream x f.stream_id) x) in rw e (w.0 ∙ v.0, w.1 ∙ v.1)
    | inr e ↦ rw e (ended x)
  ]
    where
      ended :
          (y : Session Event)
          → Leaves y (
              if (is_headers f.type || is_data f.type) && f.end_stream
              then with_stream f.stream_id on_read_eof y
              else y)
      ended y = elim (Bool-cases ((is_headers f.type || is_data f.type) && f.end_stream)) [
        | inl e ↦ rw e (with_stream-Effects f.stream_id on_read_eof y)
        | inr e ↦ rw e (refl, refl)
      ]

  pub close_stream-Leaves : (id : ℕ) (x : Session Event) → Leaves x (close_stream id x)
  unfolding close_stream at find_stream
  close_stream-Leaves id x = elim (Option-cases (lookup id x.streams)) [
    | inl e ↦ rw (e, close_stream) (refl, refl)
    | inr (ref, e) ↦ rw (e, close_stream) (refl, refl)
  ]

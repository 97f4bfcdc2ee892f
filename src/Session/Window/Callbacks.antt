-- ===== src/Session/Window/Callbacks.antt =====
-- The callbacks of src/session.cpp that leave the read side of every stream alone, for any relation
-- between the session before and after.
use nghttp2_corosio.Base.{
  ℕ, refl, inl, inr, ◌&&◌, ◌||◌, Option, none, some, Bytes, Bool-cases, same, if◌then◌else◌,
}
use nghttp2_corosio.Capy.{AsyncEvent}
use nghttp2_corosio.Stream.{
  Stream, set_path, set_status, set_content_length, add_header, on_read_eof, on_close,
}
use nghttp2_corosio.Session.{Session, find_stream, with_stream, dispatch_request}
use nghttp2_corosio.Session.Callbacks.{
  Frame, is_headers, is_data, is_request, starts_with, path_name, status_name, content_length_name,
  content_length_of, status_of, on_content_length, on_header, dispatch_found, on_frame_recv,
}
use nghttp2_corosio.Session.Window.{Neutral}

module _ {Event : Type 0} ⦃events : AsyncEvent Event⦄ where
  set_path-Neutral : (path : Bytes) → Neutral {Event = Event} (set_path path)
  unfolding set_path
  set_path-Neutral path s v =
      (record { front = v.front; no_overtaking = v.no_overtaking }, refl, refl)

  set_status-Neutral : (status : ℕ) → Neutral {Event = Event} (set_status status)
  unfolding set_status
  set_status-Neutral status s v =
      (record { front = v.front; no_overtaking = v.no_overtaking }, refl, refl)

  set_content_length-Neutral : (n : ℕ) → Neutral {Event = Event} (set_content_length n)
  unfolding set_content_length
  set_content_length-Neutral n s v =
      (record { front = v.front; no_overtaking = v.no_overtaking }, refl, refl)

  add_header-Neutral : (name value : Bytes) → Neutral {Event = Event} (add_header name value)
  unfolding add_header
  add_header-Neutral name value s v =
      (record { front = v.front; no_overtaking = v.no_overtaking }, refl, refl)

  on_read_eof-Neutral : Neutral {Event = Event} on_read_eof
  unfolding on_read_eof
  on_read_eof-Neutral s v =
      (record { front = v.front; no_overtaking = v.no_overtaking }, refl, refl)

  pub on_close-Neutral : Neutral {Event = Event} on_close
  unfolding on_close
  on_close-Neutral s v = (record { front = v.front; no_overtaking = v.no_overtaking }, refl, refl)

  -- A relation that holds across the parts of these callbacks.
  pub record IsCallbackRelation (R : Session Event → Session Event → Type 0) : Type 0 where
    pub same : (x : Session Event) → R x x
    pub trans : {x y z : Session Event} → R x y → R y z → R x z
    pub on_stream :
        (id : ℕ) (f : Stream Event → Stream Event) (x : Session Event)
        → Neutral f
        → R x (with_stream id f x)
    pub on_dispatch : (ref : ℕ) (x : Session Event) → R x (dispatch_request ref x)

module _ {Event : Type 0} ⦃events : AsyncEvent Event⦄ {R : Session Event → Session Event → Type 0}
    (r : IsCallbackRelation R) where
  on_content_length-related :
      (id : ℕ) (n : Option ℕ) (x : Session Event) → R x (on_content_length id n x)
  unfolding on_content_length
  on_content_length-related id none x = r.same x
  on_content_length-related id (some n) x =
      r.on_stream id (set_content_length n) x (set_content_length-Neutral n)

  pub on_header-related :
      (id : ℕ) (name value : Bytes) (x : Session Event) → R x (on_header id name value x)
  unfolding on_header
  on_header-related id name value x = elim (Bool-cases (same name path_name)) [
    | inl e ↦ rw e (r.on_stream id (set_path value) x (set_path-Neutral value))
    | inr e ↦ rw e (elim (Bool-cases (same name status_name)) [
      | inl e ↦
          rw e
            (r.on_stream id (set_status (status_of value)) x (set_status-Neutral (status_of value)))
      | inr e ↦ rw e (elim (Bool-cases (starts_with b':' name)) [
        | inl e ↦ rw e (r.same x)
        | inr e ↦ rw e (elim (Bool-cases (same name content_length_name)) [
          | inl e ↦
              rw e (r.trans (on_content_length-related id (content_length_of value) x) (added _))
          | inr e ↦ rw e (added x)
        ])
      ])
    ])
  ]
    where
      added : (y : Session Event) → R y (with_stream id (add_header name value) y)
      added y = r.on_stream id (add_header name value) y (add_header-Neutral name value)

  dispatch_found-related : (o : Option ℕ) (x : Session Event) → R x (dispatch_found o x)
  unfolding dispatch_found
  dispatch_found-related none x = r.same x
  dispatch_found-related (some ref) x = r.on_dispatch ref x

  pub on_frame_recv-related : (f : Frame) (x : Session Event) → R x (on_frame_recv f x)
  unfolding on_frame_recv
  on_frame_recv-related f x = elim (Bool-cases (is_headers f.type && is_request f.category)) [
    | inl e ↦ rw e (r.trans (dispatch_found-related (find_stream x f.stream_id) x) (ended _))
    | inr e ↦ rw e (ended x)
  ]
    where
      ended :
          (y : Session Event)
          → R y (
              if (is_headers f.type || is_data f.type) && f.end_stream
              then with_stream f.stream_id on_read_eof y
              else y)
      ended y = elim (Bool-cases ((is_headers f.type || is_data f.type) && f.end_stream)) [
        | inl e ↦ rw e (r.on_stream f.stream_id on_read_eof y on_read_eof-Neutral)
        | inr e ↦ rw e (r.same y)
      ]

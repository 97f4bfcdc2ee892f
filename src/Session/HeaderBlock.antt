-- ===== src/Session/HeaderBlock.antt =====
-- What on_header_callback() (src/session.cpp) makes of a block of headers, and the way of a response's
-- headers from Response::submit() (include/nghttp2-corosio/session.hpp) through submit_response() to
-- the peer's callbacks.
use nghttp2_corosio.Base.{
  ℕ, zero, suc, ◌≤◌, ◌≡◌, refl, sym, ap, ◌∙◌, inl, inr, false, Option, none, some, List, [], ◌∷◌,
  ◌++◌, append_assoc, append-nil, arith, Bytes, All, same, same_iff, codes, Bool-cases,
  if◌then◌else◌,
}
use nghttp2_corosio.Capy.{AsyncEvent}
use nghttp2_corosio.Decimal.{Parsed, from_chars, size_max, uint_max, to_string}
use nghttp2_corosio.Decimal.RoundTrip.{from_chars-to_string, read}
use nghttp2_corosio.Stream.{Stream, Headers, set_path, set_status, set_content_length, add_header}
use nghttp2_corosio.Session.{Session, update, find_stream, at, with_stream}
use nghttp2_corosio.Session.Callbacks.{
  starts_with, path_name, status_name, content_length_name, status_of, accepted, content_length_of,
  on_content_length, on_header, value_or,
}
use nghttp2_corosio.Message.{has_header}

-- A header that is not a pseudo-header.
abbrev pub IsRegular : Bytes × Bytes → Type 0
IsRegular h = starts_with b':' h.0 ≡ false

module _ {Event : Type 0} where
  abbrev capture_length : Option ℕ → Stream Event → Stream Event
  capture_length none s = s
  capture_length (some n) s = record s { content_length = some n }

module _ {Event : Type 0} ⦃events : AsyncEvent Event⦄ where
  -- What one header does to its stream.
  unfoldable pub capture : Bytes × Bytes → Stream Event → Stream Event
  unfolding set_path set_status add_header
  capture h =
      if same h.0 path_name
      then set_path h.1
      else if same h.0 status_name
      then set_status (status_of h.1)
      else if starts_with b':' h.0
      then (λ s. s)
      else if same h.0 content_length_name
      then (λ s. add_header h.0 h.1 (capture_length (content_length_of h.1) s))
      else add_header h.0 h.1

  unfoldable pub capture_all : Headers → Stream Event → Stream Event
  capture_all [] s = s
  capture_all (h ∷ hs) s = capture_all hs (capture h s)

  -- The callbacks for a block of headers.
  unfoldable pub on_headers : ℕ → Headers → Session Event → Session Event
  on_headers id [] x = x
  on_headers id (h ∷ hs) x = on_headers id hs (on_header id h.0 h.1 x)

not_pseudo : (c : ℕ) (name rest : Bytes) → starts_with c name ≡ false → same name (c ∷ rest) ≡ false
not_pseudo c name rest h = elim (Bool-cases (same name (c ∷ rest))) [
  | inl e ↦ absurd (ground (arith, ap (starts_with c) ((same_iff name (c ∷ rest)).0 e)))
  | inr e ↦ e
]

pub content_length_of-to_string : (n : ℕ) → n ≤ size_max → content_length_of (to_string n) ≡ some n
unfolding content_length_of
content_length_of-to_string n le = whole (from_chars size_max (to_string n)) parse
  where
    parse : from_chars size_max (to_string n) ≡ read n []
    parse = rw append-nil at (from_chars-to_string size_max n [] le tt)

    whole : (p : Parsed) → p ≡ read n [] → accepted p ≡ some n
    whole p e = rw e (unfold accepted in refl)

pub status_of-to_string : (n : ℕ) → n ≤ uint_max → status_of (to_string n) ≡ n
unfolding status_of
status_of-to_string n le = ap (λ (p : Parsed). value_or p.value 0) parse
  where
    parse : from_chars uint_max (to_string n) ≡ read n []
    parse = rw append-nil at (from_chars-to_string uint_max n [] le tt)

module _ {Event : Type 0} where
  update-update :
      (ref : ℕ) (f g : Stream Event → Stream Event) (heap : List (Stream Event))
      → update ref f (update ref g heap) ≡ update ref (λ s. f (g s)) heap
  unfolding update
  update-update ref f g [] = refl
  update-update zero f g (s ∷ heap) = refl
  update-update (suc ref) f g (s ∷ heap) = ap (λ r. s ∷ r) (update-update ref f g heap)

  update_self : (ref : ℕ) (heap : List (Stream Event)) → update ref (λ s. s) heap ≡ heap
  unfolding update
  update_self ref [] = refl
  update_self zero (s ∷ heap) = refl
  update_self (suc ref) (s ∷ heap) = ap (λ r. s ∷ r) (update_self ref heap)

  with_stream-at :
      (id ref : ℕ) (f : Stream Event → Stream Event) (x : Session Event)
      → find_stream x id ≡ some ref
      → with_stream id f x ≡ at ref f x
  unfolding with_stream
  with_stream-at id ref f x e = rw (e, with_stream)

module _ {Event : Type 0} ⦃events : AsyncEvent Event⦄ where
  on_content_length-at :
      (id ref : ℕ) (n : Option ℕ) (x : Session Event)
      → find_stream x id ≡ some ref
      → on_content_length id n x ≡ at ref (capture_length n) x
  unfolding on_content_length set_content_length at
  on_content_length-at id ref none x e = λ i. record x { heap = sym (update_self ref x.heap) i }
  on_content_length-at id ref (some n) x e = with_stream-at id ref (set_content_length n) x e

  on_header-at :
      (id ref : ℕ) (h : Bytes × Bytes) (x : Session Event)
      → find_stream x id ≡ some ref
      → on_header id h.0 h.1 x ≡ at ref (capture h) x
  unfolding on_header capture at
  on_header-at id ref h x e = elim (Bool-cases (same h.0 path_name)) [
    | inl t ↦ rw t (with_stream-at id ref (set_path h.1) x e)
    | inr t ↦ rw t (elim (Bool-cases (same h.0 status_name)) [
      | inl t ↦ rw t (with_stream-at id ref (set_status (status_of h.1)) x e)
      | inr t ↦ rw t (elim (Bool-cases (starts_with b':' h.0)) [
        | inl t ↦ rw t (λ i. record x { heap = sym (update_self ref x.heap) i })
        | inr t ↦ rw t (elim (Bool-cases (same h.0 content_length_name)) [
          | inl t ↦
              rw (t, on_content_length-at id ref (content_length_of h.1) x e)
                (with_stream-at id ref (add_header h.0 h.1)
                    (at ref (capture_length (content_length_of h.1)) x) e
                  ∙ (λ i. record x {
                    heap =
                        update-update ref (add_header h.0 h.1)
                          (capture_length (content_length_of h.1)) x.heap i;
                  }))
          | inr t ↦ rw t (with_stream-at id ref (add_header h.0 h.1) x e)
        ])
      ])
    ])
  ]

  -- A block of headers for a stream of the table changes that Stream alone, header by header.
  pub on_headers-at :
      (id ref : ℕ) (hs : Headers) (x : Session Event)
      → find_stream x id ≡ some ref
      → on_headers id hs x ≡ at ref (capture_all hs) x
  unfolding on_headers capture_all at find_stream
  on_headers-at id ref [] x e = λ i. record x { heap = sym (update_self ref x.heap) i }
  on_headers-at id ref (h ∷ hs) x e =
      ap (on_headers id hs) (on_header-at id ref h x e)
      ∙ on_headers-at id ref hs (at ref (capture h) x) e
      ∙ (λ i. record x { heap = update-update ref (capture_all hs) (capture h) x.heap i })

  pub capture_all-append :
      (hs ks : Headers) (s : Stream Event)
      → capture_all (hs ++ ks) s ≡ capture_all ks (capture_all hs s)
  unfolding capture_all
  capture_all-append [] ks s = refl
  capture_all-append (h ∷ hs) ks s = capture_all-append hs ks (capture h s)

  capture-regular :
      (h : Bytes × Bytes)
      → IsRegular h
      → capture {Event = Event} h ≡ (
          if same h.0 content_length_name
          then (λ s. add_header h.0 h.1 (capture_length (content_length_of h.1) s))
          else add_header h.0 h.1)
  unfolding capture
  capture-regular h r =
      rw (not_pseudo b':' h.0 (codes "path") r, not_pseudo b':' h.0 (codes "status") r, r)

  capture-regular_fields :
      (h : Bytes × Bytes) (s : Stream Event)
      → IsRegular h
      → ((capture h s).headers ≡ s.headers ++ h ∷ [])
        × ((capture h s).status ≡ s.status)
        × ((capture h s).path ≡ s.path)
  capture-regular_fields h s r =
      rw (capture-regular h r) (elim (Bool-cases (same h.0 content_length_name)) [
        | inl t ↦ rw t (kept (content_length_of h.1))
        | inr t ↦ rw t (unfold add_header in (refl, refl, refl))
      ])
    where
      kept :
          (n : Option ℕ)
          → let t = add_header h.0 h.1 (capture_length n s) in
            (t.headers ≡ s.headers ++ h ∷ []) × (t.status ≡ s.status) × (t.path ≡ s.path)
      kept none = unfold add_header in (refl, refl, refl)
      kept (some n) = unfold add_header in (refl, refl, refl)

  -- A block without pseudo-headers, in order and with its repetitions, is appended to the headers.
  pub capture_all-regular :
      (hs : Headers) (s : Stream Event)
      → All IsRegular hs
      → ((capture_all hs s).headers ≡ s.headers ++ hs)
        × ((capture_all hs s).status ≡ s.status)
        × ((capture_all hs s).path ≡ s.path)
  unfolding capture_all
  capture_all-regular [] s r = (sym (append-nil s.headers), refl, refl)
  capture_all-regular (h ∷ hs) s r =
      let one = capture-regular_fields h s r.0 in
      let rest = capture_all-regular hs (capture h s) r.1 in
      (
        rest.0 ∙ ap (λ l. l ++ hs) one.0 ∙ append_assoc s.headers (h ∷ []) hs,
        rest.1 ∙ one.1,
        rest.2 ∙ one.2,
      )

  -- Headers of other names leave the content length alone.
  pub capture_all-content_length :
      (hs : Headers) (s : Stream Event)
      → All IsRegular hs
      → has_header content_length_name hs ≡ false
      → (capture_all hs s).content_length ≡ s.content_length
  unfolding capture_all has_header
  capture_all-content_length [] s r n = refl
  capture_all-content_length (h ∷ hs) s r n =
      capture_all-content_length hs (capture h s) r.1 (ground arith) ∙ one
    where
      one : (capture h s).content_length ≡ s.content_length
      one = rw (capture-regular h r.0) (unfold add_header in ground arith)

  pub capture-length_header :
      (n : ℕ) (s : Stream Event)
      → n ≤ size_max
      → (capture (content_length_name, to_string n) s).content_length ≡ some n
  unfolding capture same content_length_of
  capture-length_header n s le = rw (content_length_of-to_string n le) refl

-- ===== src/Session/Submit/Outcome.antt =====
-- What submit_request() (src/session.cpp) comes to, for every role and every answer of nghttp2.
use nghttp2_corosio.Base.{
  ℕ, ◌≡◌, refl, sym, ap, subst, ◌∙◌, true, false, Option, none, some, List, [], ◌∷◌, ◌++◌, Bytes,
  codes, length, get_elem?, get_elem?-append_last, ◌==◌, if◌then◌else◌,
}
use nghttp2_corosio.Capy.{AsyncEvent, operation_not_permitted, invalid_argument}
use nghttp2_corosio.Decimal.{to_string}
use nghttp2_corosio.Stream.{Stream, Headers, new_stream, set_id}
use nghttp2_corosio.Session.{
  Session, NativeCall, Role, server, client, submit_request, call, start_write, at, find_stream,
  lookup, prefix_of,
}
use nghttp2_corosio.Session.Submit.{
  Submitted, assigned, refused, RequestResult, opened, failed, request_headers, make_placeholder,
  request_submitted, submit_request_for,
}
use nghttp2_corosio.Session.Table.{lookup-emplace, update-append_last}

module _ {Event : Type 0} ⦃events : AsyncEvent Event⦄ (path : Bytes) (n : Option ℕ)
    (headers : Headers) (x : Session Event) where
  -- The content length, if there is one, and then the user's headers.
  abbrev fields : Option ℕ → Headers
  fields none = headers
  fields (some k) = (codes "content-length", to_string k) ∷ headers

  -- nghttp2 is given the pseudo-headers and the fields, and the new object as the source of the body.
  abbrev given : List NativeCall
  given =
      x.native
      ++ submit_request
          ((codes ":method", codes "POST")
            ∷ (codes ":scheme", codes "http")
            ∷ (codes ":path", path)
            ∷ (codes ":authority", codes "localhost")
            ∷ fields n)
          (length x.heap)
        ∷ []

  -- nghttp2 does not take the headers: an error, and nothing else has changed that is seen.
  pub record IsRefused (r : Session Event × RequestResult) : Type 0 where
    pub error : r.1 ≡ failed invalid_argument
    pub submitted : r.0.native ≡ given
    pub same_table : r.0.streams ≡ x.streams
    pub no_wakeup : r.0.write_ready ≡ x.write_ready

  -- nghttp2 gives the identifier `id`.
  pub record IsOpened (id : ℕ) (r : Session Event × RequestResult) : Type 0 where
    pub result : r.1 ≡ opened (length x.heap)
    pub submitted : r.0.native ≡ given
    pub table :
        (j : ℕ) → find_stream r.0 j ≡ (if id == j then some (length x.heap) else find_stream x j)
    pub object :
        (s : Stream Event) × (get_elem? r.0.heap (length x.heap) ≡ some s)
        × (s.id ≡ id)
        × (s.closed ≡ false)
    pub wakeup : events.is_set r.0.write_ready ≡ true

  abbrev pub RequestOutcome : Role → Submitted → Session Event × RequestResult → Type 0
  RequestOutcome server answer r = r ≡ (x, failed operation_not_permitted)
  RequestOutcome client refused r = IsRefused r
  RequestOutcome client (assigned id) r = IsOpened id r

  abbrev pub IsNew : Submitted → Type 0
  IsNew refused = Unit
  IsNew (assigned id) = lookup id x.streams ≡ none

  -- The session that nghttp2_submit_request2() leaves, before its answer is looked at.
  abbrev asked : Session Event
  asked =
      call (submit_request (request_headers path n headers) (length x.heap)) (make_placeholder x)

  asked-given : asked.native ≡ given
  unfolding call make_placeholder request_headers
  asked-given = ap (λ hs. x.native ++ submit_request hs (length x.heap) ∷ []) (block n)
    where
      block :
          (k : Option ℕ)
          → request_headers path k headers
            ≡ (codes ":method", codes "POST")
              ∷ (codes ":scheme", codes "http")
              ∷ (codes ":path", path)
              ∷ (codes ":authority", codes "localhost")
              ∷ fields k
      block none = refl
      block (some k) = refl

  by_role :
      (role : Role) (answer : Submitted)
      → x.role ≡ role
      → submit_request_for answer path n headers x ≡ (elim role [
        | server ↦ (x, failed operation_not_permitted)
        | client ↦ request_submitted answer (length x.heap) asked
      ])
  unfolding submit_request_for
  by_role role answer e =
      ap
        (λ r. elim r as (λ _. Session Event × RequestResult) [
          | server ↦ (x, failed operation_not_permitted)
          | client ↦ request_submitted answer (length x.heap) asked
        ])
        e

  refused-IsRefused : IsRefused (request_submitted refused (length x.heap) asked)
  unfolding request_submitted make_placeholder call
  refused-IsRefused = record {
    error = refl;
    submitted = asked-given;
    same_table = refl;
    no_wakeup = refl;
  }

  assigned-IsOpened :
      (id : ℕ)
      → lookup id x.streams ≡ none
      → IsOpened id (request_submitted (assigned id) (length x.heap) asked)
  unfolding request_submitted make_placeholder call start_write at find_stream new_stream set_id
  assigned-IsOpened id new = record {
    result = refl;
    submitted = asked-given;
    table = λ j. lookup-emplace id (length x.heap) j x.streams new;
    object = (
      set_id id (prefix_of x id) (new_stream 0 x.log_prefix),
      ap (λ heap. get_elem? heap (length x.heap))
            (update-append_last x.heap (new_stream 0 x.log_prefix) (set_id id (prefix_of x id)))
          ∙ get_elem?-append_last x.heap _,
      refl,
      refl,
    );
    wakeup = events.is_set-set x.write_ready;
  }

  outcome :
      (role : Role) (answer : Submitted)
      → x.role ≡ role
      → IsNew answer
      → RequestOutcome role answer (submit_request_for answer path n headers x)
  outcome server answer e new = by_role server answer e
  outcome client refused e new = subst IsRefused (sym (by_role client refused e)) refused-IsRefused
  outcome client (assigned id) e new =
      subst (IsOpened id) (sym (by_role client (assigned id) e)) (assigned-IsOpened id new)

  -- submit_request(), when an identifier that nghttp2 gives is not in use: on a server it fails with
  -- `operation_not_permitted` and does nothing. On a client nghttp2 is given the headers of the
  -- request (`:method` POST, `:scheme` http, the path, `:authority` localhost, the content length if there
  -- is one, and the user's headers, in this order) with a new Stream as the source of its body; if it refuses, the call fails with
  -- `invalid_argument`, and neither the table changes nor is the send loop woken; if it gives an
  -- identifier, the call returns that Stream, which is open and has the identifier, the table leads
  -- from there to it, and from any other identifier where it did, and the send loop is woken.
  pub submit_request_for_lem :
      (answer : Submitted)
      → IsNew answer
      → RequestOutcome x.role answer (submit_request_for answer path n headers x)
  submit_request_for_lem answer new = outcome x.role answer refl new

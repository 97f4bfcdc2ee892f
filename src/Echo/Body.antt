-- ===== src/Echo/Body.antt =====
-- What the echo handler (echo_handler.cpp) sends, when its submits succeed.
use nghttp2_corosio.Base.{
  ℕ, ◌≡◌, refl, ap, Bool, true, false, Option, none, some, List, [], ◌∷◌, ◌++◌, Bytes, All, codes,
  Bool-cases, inl, inr, if◌then◌else◌,
}
use nghttp2_corosio.Capy.{ErrorCode}
use nghttp2_corosio.Message.{has_header}
use nghttp2_corosio.Echo.{
  Request, ReadAnswer, got, read_failed, Round, Answers, Call, submit, write, write_eof, waiting,
  returned, Echoing, submit_then, finish, echo_loop, echo,
}

-- The body of the response.
abbrev pub body : List Call → Bytes
body [] = []
body (submit n ∷ calls) = body calls
body (write bytes ∷ calls) = bytes ++ body calls
body (write_eof ∷ calls) = body calls

abbrev pub ends : List Call → ℕ
ends [] = 0
ends (submit n ∷ calls) = ends calls
ends (write bytes ∷ calls) = ends calls
ends (write_eof ∷ calls) = 1

-- The bytes read up to the first read or write that fails, the bytes of that write included, and
-- whether there is one.
abbrev pub echoed : List Round → Bytes
echoed [] = []
echoed (r ∷ rounds) = elim r.read [
  | read_failed e ↦ []
  | got bytes ↦ bytes ++ (elim r.write_error [ none ↦ echoed rounds | some e ↦ [] ])
]

abbrev pub is_over : List Round → Bool
is_over [] = false
is_over (r ∷ rounds) = elim r.read [
  | read_failed e ↦ true
  | got bytes ↦ elim r.write_error [ none ↦ is_over rounds | some e ↦ true ]
]

pub record Submits (a : Answers) : Type 0 where
  pub eager : a.eager_error ≡ none
  pub each : All (λ (r : Round). r.submit_error ≡ none) a.rounds
  pub last : a.last_error ≡ none

-- What the handler has sent after some rounds.
pub record Sends (rounds : List Round) (a : Answers) (e : Echoing) : Type 0 where
  pub same_body : body e.calls ≡ echoed rounds
  pub one_end : ends e.calls ≡ (if is_over rounds then 1 else 0)
  pub result : e.outcome ≡ (if is_over rounds then returned a.eof_error else waiting)

Sends-submit :
    (rounds : List Round) (a : Answers) (n : Option ℕ) (ec : Option ErrorCode) (e : Echoing)
    → ec ≡ none
    → Sends rounds a e
    → Sends rounds a (submit_then n ec e)
Sends-submit rounds a n none e h v = record {
  same_body = v.same_body;
  one_end = v.one_end;
  result = v.result;
}
Sends-submit rounds a n (some c) e h v = absurd (cc)

-- The end of the loop, in a round that ends it and sends nothing.
finish-ends :
    (submitted : Bool) (n : Option ℕ) (a : Answers)
    → a.last_error ≡ none
    → (body (finish submitted n a).calls ≡ [])
      × (ends (finish submitted n a).calls ≡ 1)
      × ((finish submitted n a).outcome ≡ returned a.eof_error)
unfolding finish
finish-ends true n a h = (refl, refl, refl)
finish-ends false n a h = rw h (refl, refl, refl)

module _ (n : Option ℕ) (a : Answers) (last : a.last_error ≡ none) where
  echo_round-Sends :
      (submitted : Bool) (read : ReadAnswer) (we se : Option ErrorCode) (rounds : List Round)
      → se ≡ none
      → Sends rounds a (echo_loop true n a rounds)
      → let r : Round = record { read = read; submit_error = se; write_error = we } in
        Sends (r ∷ rounds) a (echo_loop submitted n a (r ∷ rounds))
  unfolding echo_loop
  echo_round-Sends submitted (read_failed e) we se rounds h v =
      let f = finish-ends submitted n a last in
      record { same_body = f.0; one_end = f.1; result = f.2 }
  echo_round-Sends true (got bytes) none se rounds h v = record {
    same_body = ap (λ rest. bytes ++ rest) v.same_body;
    one_end = v.one_end;
    result = v.result;
  }
  echo_round-Sends true (got bytes) (some e) se rounds h v =
      let f = finish-ends true n a last in
      record { same_body = ap (λ rest. bytes ++ rest) f.0; one_end = f.1; result = f.2 }
  echo_round-Sends false (got bytes) none se rounds h v = Sends-submit _ a n se _ h (record {
    same_body = ap (λ rest. bytes ++ rest) v.same_body;
    one_end = v.one_end;
    result = v.result;
  })
  echo_round-Sends false (got bytes) (some e) se rounds h v =
      let f = finish-ends true n a last in
      Sends-submit _ a n se _ h
        (record { same_body = ap (λ rest. bytes ++ rest) f.0; one_end = f.1; result = f.2 })

  echo_loop-Sends :
      (submitted : Bool) (rounds : List Round)
      → All (λ (r : Round). r.submit_error ≡ none) rounds
      → Sends rounds a (echo_loop submitted n a rounds)
  echo_loop-Sends submitted [] h =
      unfold echo_loop in record { same_body = refl; one_end = refl; result = refl }
  echo_loop-Sends submitted (r ∷ rounds) h =
      echo_round-Sends submitted r.read r.write_error r.submit_error rounds h.0
        (echo_loop-Sends true rounds h.1)

pub echo-Sends : (request : Request) (a : Answers) → Submits a → Sends a.rounds a (echo request a)
unfolding echo
echo-Sends request a s =
    let n = request.content_length in
    elim (Bool-cases (has_header (codes "x-eager-submit") request.headers)) [
      | inl e ↦ rw e (
          Sends-submit a.rounds a n a.eager_error _ s.eager
            (echo_loop-Sends n a s.last true a.rounds s.each))
      | inr e ↦ rw e (echo_loop-Sends n a s.last false a.rounds s.each)
    ]

-- ===== src/Handlers/Counts.antt =====
-- The counting coroutines of test/request_handlers.cpp against the reading one.
use nghttp2_corosio.Base.{
  ℕ, ◌+◌, ◌≡◌, refl, sym, ap, ◌∙◌, Bool, Option, none, some, List, [], ◌∷◌, ◌++◌, arith, Bytes,
  length, length-append,
}
use nghttp2_corosio.Capy.{ErrorCode}
use nghttp2_corosio.Handlers.{
  Answer, Result, reported, read_response, count_response, count_into_response, read_request,
  count_request, count_into_request,
}

abbrev pub sized : Result Bytes → Result ℕ
sized none = none
sized (some (e, body)) = some (e, length body)

-- The bytes of the answers up to the first one with an error, that one included.
abbrev pub arrived : List Answer → ℕ
arrived [] = 0
arrived (a ∷ answers) = elim a.ec [
  | none ↦ length a.bytes + arrived answers
  | some e ↦ length a.bytes
]

abbrev pub outcome : {A : Type 0} → Result A → Option (Option ErrorCode)
outcome none = none
outcome (some (e, a)) = some e

module _ (is_eof : ErrorCode → Bool) where
  count_step :
      (ec : Option ErrorCode) (body bytes : Bytes) (answers : List Answer)
      → count_response is_eof (length (body ++ bytes)) answers
        ≡ sized (read_response is_eof (body ++ bytes) answers)
      → let a : Answer = record { ec = ec; bytes = bytes } in
        count_response is_eof (length body) (a ∷ answers)
        ≡ sized (read_response is_eof body (a ∷ answers))
  unfolding count_response read_response
  count_step none body bytes answers rest =
      ap (λ n. count_response is_eof n answers) (sym (length-append body bytes)) ∙ rest
  count_step (some e) body bytes answers rest =
      ap (λ n. some (reported is_eof e, n)) (sym (length-append body bytes))

  count_response-read :
      (body : Bytes) (answers : List Answer)
      → count_response is_eof (length body) answers ≡ sized (read_response is_eof body answers)
  count_response-read body [] = unfold count_response read_response in refl
  count_response-read body (a ∷ answers) =
      count_step a.ec body a.bytes answers (count_response-read (body ++ a.bytes) answers)

  count_into_step :
      (ec : Option ErrorCode) (n : ℕ) (body bytes : Bytes) (answers : List Answer)
      → count_into_response is_eof (n + length bytes) answers ≡ (
        n + length bytes + arrived answers,
        outcome (read_response is_eof (body ++ bytes) answers),
      )
      → let a : Answer = record { ec = ec; bytes = bytes } in
        count_into_response is_eof n (a ∷ answers)
        ≡ (n + arrived (a ∷ answers), outcome (read_response is_eof body (a ∷ answers)))
  unfolding count_into_response read_response
  count_into_step none n body bytes answers rest =
      rest
      ∙ ap (λ k. (k, outcome (read_response is_eof (body ++ bytes) answers)))
          {x = n + length bytes + arrived answers} {y = n + (length bytes + arrived answers)}
          (omega arith)
  count_into_step (some e) n body bytes answers rest = refl

  count_into-read :
      (n : ℕ) (body : Bytes) (answers : List Answer)
      → count_into_response is_eof n answers
        ≡ (n + arrived answers, outcome (read_response is_eof body answers))
  count_into-read n body [] =
      unfold count_into_response read_response in
      ap (λ k. (k, none)) {x = n} {y = n + 0} (omega arith)
  count_into-read n body (a ∷ answers) =
      count_into_step a.ec n body a.bytes answers
        (count_into-read (n + length a.bytes) (body ++ a.bytes) answers)

  -- Whatever get_response() and the reads return: count() returns when read() does, with the same
  -- error, and the length of the body that read() returns; and count_into() has the same error, and
  -- has added to its variable, whether it has returned or not, the bytes of the reads up to the first
  -- one with an error, that one included, or nothing if get_response() failed.
  pub counts-read :
      (failure : Option ErrorCode) (received : ℕ) (answers : List Answer)
      → (count_request is_eof failure answers ≡ sized (read_request is_eof failure answers))
        × (count_into_request is_eof failure received answers ≡ (
          received + (elim failure [ none ↦ arrived answers | some e ↦ 0 ]),
          outcome (read_request is_eof failure answers),
        ))
  unfolding count_request read_request count_into_request
  counts-read none received answers =
      (count_response-read [] answers, count_into-read received [] answers)
  counts-read (some e) received answers =
      (refl, ap (λ k. (k, some (some e))) {x = received} {y = received + 0} (omega arith))

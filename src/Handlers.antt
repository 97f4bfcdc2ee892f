-- ===== src/Handlers.antt =====
-- The coroutines of test/request_handlers.cpp that read a body to its end. What get_response() and
-- read_some() return in each round is an argument, and so is the test for capy's condition `eof`.
pub mod Counts
pub mod Replies
use nghttp2_corosio.Base.{
  ℕ, ◌+◌, Bool, true, false, Option, none, some, List, [], ◌∷◌, ◌++◌, Bytes, length, if◌then◌else◌,
}
use nghttp2_corosio.Capy.{ErrorCode}

-- `io_result` of a read: the bytes may come with an error.
pub record Answer : Type 0 where
  pub ec : Option ErrorCode
  pub bytes : Bytes

-- An error and a value, once the coroutine has returned.
abbrev pub Result : Type 0 → Type 0
Result A = Option (Option ErrorCode × A)

module _ (is_eof : ErrorCode → Bool) where
  abbrev pub reported : ErrorCode → Option ErrorCode
  reported e = if is_eof e then none else some e

  unfoldable pub read_response : Bytes → List Answer → Result Bytes
  read_response body [] = none
  read_response body (a ∷ answers) =
      let body' = body ++ a.bytes in
      let rest = read_response body' answers in
      elim a.ec [ none ↦ rest | some e ↦ some (reported e, body') ]

  unfoldable pub count_response : ℕ → List Answer → Result ℕ
  count_response n [] = none
  count_response n (a ∷ answers) =
      let n' = n + length a.bytes in
      let rest = count_response n' answers in
      elim a.ec [ none ↦ rest | some e ↦ some (reported e, n') ]

  -- With the variable that it counts into, which others may read before it returns.
  unfoldable pub count_into_response : ℕ → List Answer → ℕ × Option (Option ErrorCode)
  count_into_response received [] = (received, none)
  count_into_response received (a ∷ answers) =
      let received' = received + length a.bytes in
      let rest = count_into_response received' answers in
      elim a.ec [ none ↦ rest | some e ↦ (received', some (reported e)) ]

  unfoldable pub read_request : Option ErrorCode → List Answer → Result Bytes
  unfolding read_response
  read_request (some e) answers = some (some e, [])
  read_request none answers = read_response [] answers

  unfoldable pub count_request : Option ErrorCode → List Answer → Result ℕ
  unfolding count_response
  count_request (some e) answers = some (some e, 0)
  count_request none answers = count_response 0 answers

  unfoldable pub count_into_request :
      Option ErrorCode → ℕ → List Answer → ℕ × Option (Option ErrorCode)
  unfolding count_into_response
  count_into_request (some e) received answers = (received, some (some e))
  count_into_request none received answers = count_into_response received answers

-- The calls that a handler makes on its response and on the body of its request.
pub data Call : Type 0 where
  submit : ℕ → Call
  read_some : Call
  write_eof : Call

-- The calls in order, and whether the coroutine has returned.
pub record Reply : Type 0 where
  pub calls : List Call
  pub is_done : Bool

abbrev pub after_call : Call → Reply → Reply
after_call c r = record r { calls = c ∷ r.calls }

-- The loop of `eat_request` and what follows it. The results of submit() and write_eof() are not read.
unfoldable pub eat_body : List Answer → Reply
eat_body [] = record { calls = []; is_done = false }
eat_body (a ∷ answers) =
    let rest = eat_body answers in
    after_call read_some
      (elim a.ec [ none ↦ rest | some e ↦ record { calls = write_eof ∷ []; is_done = true } ])

unfoldable pub eat_request : List Answer → Reply
unfolding eat_body
eat_request answers = after_call (submit 200) (eat_body answers)

unfoldable pub not_found : Reply
not_found = record { calls = submit 404 ∷ write_eof ∷ []; is_done = true }

-- ===== src/Echo/Laws.antt =====
-- What the echo handler (echo_handler.cpp) does with its response, for any answers.
use nghttp2_corosio.Base.{
  ℕ, ◌≡◌, refl, Bool, true, false, Option, none, some, List, [], ◌∷◌, codes, Bool-cases, inl, inr,
  if◌then◌else◌,
}
use nghttp2_corosio.Capy.{ErrorCode}
use nghttp2_corosio.Message.{has_header}
use nghttp2_corosio.Echo.{
  Request, ReadAnswer, got, read_failed, Round, Answers, Call, submit, write, write_eof, Echoing,
  prepend, submit_then, finish, echo_loop, echo,
}

-- The use of a response that its class asks for: one submit, before any write, and nothing after
-- write_eof(). The flag says whether the response was submitted.
abbrev pub IsProtocol : Option ℕ → Bool → List Call → Type 0
IsProtocol n submitted [] = Unit {0}
IsProtocol n false (submit m ∷ calls) = (m ≡ n) × IsProtocol n true calls
IsProtocol n false (write bytes ∷ calls) = ⊥
IsProtocol n false (write_eof ∷ calls) = ⊥
IsProtocol n true (submit m ∷ calls) = ⊥
IsProtocol n true (write bytes ∷ calls) = IsProtocol n true calls
IsProtocol n true (write_eof ∷ calls) = calls ≡ []

submit_then-IsProtocol :
    (n : Option ℕ) (ec : Option ErrorCode) (rest : Echoing)
    → IsProtocol n true rest.calls
    → IsProtocol n false (submit_then n ec rest).calls
submit_then-IsProtocol n none rest h = (refl, h)
submit_then-IsProtocol n (some e) rest h = (refl, tt)

finish-IsProtocol :
    (submitted : Bool) (n : Option ℕ) (a : Answers)
    → IsProtocol n submitted (finish submitted n a).calls
unfolding finish
finish-IsProtocol true n a = refl
finish-IsProtocol false n a = submit_then-IsProtocol n a.last_error _ refl

echo_loop-IsProtocol :
    (submitted : Bool) (n : Option ℕ) (a : Answers) (rounds : List Round)
    → IsProtocol n submitted (echo_loop submitted n a rounds).calls
unfolding echo_loop
echo_loop-IsProtocol submitted n a [] = tt
echo_loop-IsProtocol submitted n a (r ∷ rounds) =
    go submitted r.read r.write_error r.submit_error (echo_loop-IsProtocol true n a rounds)
  where
    rest : Echoing
    rest = echo_loop true n a rounds

    go :
        (submitted : Bool) (read : ReadAnswer) (we se : Option ErrorCode)
        → IsProtocol n true rest.calls
        → IsProtocol n submitted
            (elim read as (λ _. Echoing) [
              | read_failed e ↦ finish submitted n a
              | got bytes ↦
                  let written =
                    prepend
                      (write bytes)
                      (elim we as (λ _. Echoing) [ none ↦ rest | some e ↦ finish true n a ]) in
                  if submitted then written else submit_then n se written
            ]).calls
    go submitted (read_failed e) we se h = finish-IsProtocol submitted n a
    go true (got bytes) none se h = h
    go true (got bytes) (some e) se h = finish-IsProtocol true n a
    go false (got bytes) none se h = submit_then-IsProtocol n se _ h
    go false (got bytes) (some e) se h = submit_then-IsProtocol n se _ (finish-IsProtocol true n a)

-- Whatever its request, and whatever reads, submits and writes return: the handler submits before
-- its first write, at most once, with the content length of the request; and it calls nothing after
-- write_eof().
pub echo-IsProtocol :
    (request : Request) (a : Answers)
    → IsProtocol request.content_length false (echo request a).calls
unfolding echo
echo-IsProtocol request a =
    elim (Bool-cases (has_header (codes "x-eager-submit") request.headers)) [
      | inl e ↦ rw e (
          submit_then-IsProtocol request.content_length a.eager_error _
            (echo_loop-IsProtocol true request.content_length a a.rounds))
      | inr e ↦ rw e (echo_loop-IsProtocol false request.content_length a a.rounds)
    ]

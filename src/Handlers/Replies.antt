-- ===== src/Handlers/Replies.antt =====
-- What eat_request() of test/request_handlers.cpp does with its request and its response.
use nghttp2_corosio.Base.{
  ℕ, zero, suc, ◌+◌, ◌≡◌, refl, ap, ◌∙◌, Bool, true, false, Option, none, some, List, [], ◌∷◌, ◌++◌,
  arith, if◌then◌else◌,
}
use nghttp2_corosio.Capy.{ErrorCode}
use nghttp2_corosio.Handlers.{
  Answer, Call, submit, read_some, write_eof, Reply, eat_body, eat_request,
}

-- How many reads there are up to the first one that fails, that one included, and whether there is one.
abbrev pub reads : List Answer → ℕ
reads [] = 0
reads (a ∷ answers) = elim a.ec [ none ↦ reads answers + 1 | some e ↦ 1 ]

abbrev pub is_eaten : List Answer → Bool
is_eaten [] = false
is_eaten (a ∷ answers) = elim a.ec [ none ↦ is_eaten answers | some e ↦ true ]

abbrev pub times : ℕ → List Call
times zero = []
times (suc n) = read_some ∷ times n

pub record Eats (answers : List Answer) (r : Reply) : Type 0 where
  pub same_calls :
      r.calls ≡ times (reads answers) ++ (if is_eaten answers then write_eof ∷ [] else [])
  pub same_end : r.is_done ≡ is_eaten answers

eat_body-Eats : (answers : List Answer) → Eats answers (eat_body answers)
unfolding eat_body
eat_body-Eats [] = record { same_calls = refl; same_end = refl }
eat_body-Eats (a ∷ answers) = go a.ec (eat_body-Eats answers)
  where
    go :
        (ec : Option ErrorCode)
        → Eats answers (eat_body answers)
        → let b : Answer = record { ec = ec; bytes = a.bytes } in
          Eats (b ∷ answers) (eat_body (b ∷ answers))
    go none v = record {
      same_calls =
          ap (λ l. read_some ∷ l) v.same_calls
          ∙ ap (λ n. times n ++ (if is_eaten answers then write_eof ∷ [] else []))
              {x = suc (reads answers)} {y = reads answers + 1} (omega arith);
      same_end = v.same_end;
    }
    go (some e) v = record { same_calls = refl; same_end = refl }

-- For any answers, eat_request() submits status 200 before it reads at all, then reads until a read
-- fails, and then, and only then, calls write_eof() once and returns.
pub eat_request-Eats :
    (answers : List Answer)
    → ((eat_request answers).calls
        ≡ submit 200 ∷ times (reads answers) ++ (if is_eaten answers then write_eof ∷ [] else []))
      × ((eat_request answers).is_done ≡ is_eaten answers)
unfolding eat_request
eat_request-Eats answers =
    let v = eat_body-Eats answers in (ap (λ l. submit 200 ∷ l) v.same_calls, v.same_end)

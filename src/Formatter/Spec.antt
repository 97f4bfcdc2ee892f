-- ===== src/Formatter/Spec.antt =====
-- Which format specifications of a header are accepted, and for which part
-- (include/nghttp2-corosio/formatter.hpp).
use nghttp2_corosio.Base.{
  ◌≡◌, refl, ap, ap₂, ◌∙◌, subst, Bool-cases, ==_iff, inl, inr, ◌↔◌, some, [], ◌∷◌, ◌++◌, arith,
  Bytes, codes, ◌==◌,
}
use nghttp2_corosio.Formatter.{Part, name_and_value, name, value, closed_after, parse}

abbrev pub letter : Part → Bytes
letter name_and_value = []
letter name = codes "n"
letter value = codes "v"

-- The end of a specification.
abbrev pub IsEnd : Bytes → Type 0
IsEnd [] = Unit {0}
IsEnd (c ∷ rest) = c ≡ b'}'

closed_after_only :
    (what part : Part) (spec rest : Bytes)
    → closed_after what spec ≡ some (part, rest)
    → (what ≡ part) × (spec ≡ rest) × IsEnd spec
unfolding closed_after
closed_after_only what part [] rest e = (ground arith, ground arith, tt)
closed_after_only what part (c ∷ spec) rest e = (ground arith, ground arith, ground arith)

after_letter :
    (what part : Part) (spec rest : Bytes)
    → closed_after what spec ≡ some (part, rest)
    → (letter what ++ spec ≡ letter part ++ rest) × IsEnd rest
after_letter what part spec rest e =
    let (same_part, same_rest, end) = closed_after_only what part spec rest e in
    (ap₂ (λ w s. letter w ++ s) same_part same_rest, subst IsEnd same_rest end)

parse-letter :
    (part : Part) (rest : Bytes) → IsEnd rest → parse (letter part ++ rest) ≡ some (part, rest)
unfolding parse
parse-letter name_and_value [] h = refl
parse-letter name_and_value (c ∷ rest) h = ground arith
parse-letter name [] h = refl
parse-letter name (c ∷ rest) h = ground arith
parse-letter value [] h = refl
parse-letter value (c ∷ rest) h = ground arith

parse_only :
    (part : Part) (spec rest : Bytes)
    → parse spec ≡ some (part, rest)
    → (spec ≡ letter part ++ rest) × IsEnd rest
unfolding parse
parse_only part [] rest e = after_letter name_and_value part [] rest (unfold closed_after in e)
parse_only part (c ∷ spec) rest e = elim (Bool-cases (c == b'n')) [
  | inl t ↦
      let r = after_letter name part spec rest (rw t at e) in
      (ap (λ d. d ∷ spec) ((==_iff c b'n').0 t) ∙ r.0, r.1)
  | inr not_n ↦ elim (Bool-cases (c == b'v')) [
    | inl t ↦
        let r = after_letter value part spec rest (rw (not_n, t) at e) in
        (ap (λ d. d ∷ spec) ((==_iff c b'v').0 t) ∙ r.0, r.1)
    | inr t ↦ after_letter name_and_value part (c ∷ spec) rest (rw (not_n, t) at e)
  ]
]

-- A specification of an nghttp2_nv is accepted, with a part and a rest, exactly when it is that
-- part's letter (`n`, `v`, or none for both) and the rest, and the rest is empty or starts with the
-- closing brace.
pub parse_iff :
    (part : Part) (spec rest : Bytes)
    → (parse spec ≡ some (part, rest)) ↔ ((spec ≡ letter part ++ rest) × IsEnd rest)
parse_iff part spec rest = (
  parse_only part spec rest,
  λ (h : (spec ≡ letter part ++ rest) × IsEnd rest). ap parse h.0 ∙ parse-letter part rest h.1,
)

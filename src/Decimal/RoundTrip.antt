-- ===== src/Decimal/RoundTrip.antt =====
-- std::from_chars against std::to_string, the two ends of a content-length header of src/session.cpp.
use nghttp2_corosio.Base.{
  ℕ, suc, ◌≤◌, ◌≡◌, refl, sym, ap, ◌∙◌, subst, ◌≢◌, ◌↔◌, some, [], ◌∷◌, ◌++◌, append-nil, arith,
  Bytes,
}
use nghttp2_corosio.Decimal.{
  Parsed, Errc, span_digits, value_from, parsed_digits, from_chars, digits_of, to_string,
}
use nghttp2_corosio.Decimal.Digits.{
  AreDigits, StartsOther, span_digits-append, span_digits-digits, span_digits_split,
  digits_of-AreDigits, value_from-digits_of, digits_of-ne-nil,
}

-- A successful parse.
abbrev pub read : ℕ → Bytes → Parsed
read n rest = record { value = some n; rest = rest; ec = Errc.ok }

parsed_digits_in :
    (largest n : ℕ) (text ds rest : Bytes)
    → ds ≢ []
    → value_from 0 ds ≡ n
    → n ≤ largest
    → parsed_digits largest text ds rest ≡ read n rest
unfolding parsed_digits
parsed_digits_in largest n text [] rest h e le = absurd (h refl)
parsed_digits_in largest n text (d ∷ ds) rest h e le = ground arith

-- A printed number that fits the type is read back, up to whatever follows it.
pub from_chars-to_string :
    (largest n : ℕ) (rest : Bytes)
    → n ≤ largest
    → StartsOther rest
    → from_chars largest (to_string n ++ rest) ≡ read n rest
unfolding from_chars to_string
from_chars-to_string largest n rest le o =
    unfold from_chars to_string in
    rw (span_digits-append (digits_of (suc n) n) rest (digits_of-AreDigits (suc n) n) o) (
      parsed_digits_in largest n _ (digits_of (suc n) n) rest (digits_of-ne-nil n n)
        (value_from-digits_of (suc n) n (omega arith)) le)

parsed_digits_only :
    (largest n : ℕ) (text ds rest : Bytes)
    → parsed_digits largest text ds rest ≡ read n []
    → (ds ≢ []) × (rest ≡ []) × (value_from 0 ds ≡ n) × (n ≤ largest)
unfolding parsed_digits
parsed_digits_only largest n text [] rest e = cc
parsed_digits_only largest n text (d ∷ ds) rest e = ground arith

read_only :
    (largest n : ℕ) (text : Bytes)
    → from_chars largest text ≡ read n []
    → AreDigits text × (text ≢ []) × (value_from 0 text ≡ n) × (n ≤ largest)
unfolding from_chars
read_only largest n text e = (
  subst AreDigits whole (span_digits-digits text),
  λ none_left. facts.0 (whole ∙ none_left),
  ap (value_from 0) (sym whole) ∙ facts.2,
  facts.3,
)
  where
    facts :
        ((span_digits text).0 ≢ [])
        × ((span_digits text).1 ≡ [])
        × (value_from 0 (span_digits text).0 ≡ n)
        × (n ≤ largest)
    facts = parsed_digits_only largest n text (span_digits text).0 (span_digits text).1 e

    whole : (span_digits text).0 ≡ text
    whole = sym (append-nil _) ∙ rw (← facts.1) (span_digits_split text)

reads :
    (largest n : ℕ) (text : Bytes)
    → AreDigits text
    → text ≢ []
    → value_from 0 text ≡ n
    → n ≤ largest
    → from_chars largest text ≡ read n []
unfolding from_chars
reads largest n text ds ne v le = rw alone (parsed_digits_in largest n text text [] ne v le)
  where
    alone : span_digits text ≡ (text, [])
    alone = rw append-nil at (span_digits-append text [] ds tt)

-- A text is read whole exactly when it is digits alone, at least one, of a value that fits.
pub from_chars_whole :
    (largest n : ℕ) (text : Bytes)
    → (from_chars largest text ≡ read n [])
      ↔ (AreDigits text × (text ≢ []) × (value_from 0 text ≡ n) × (n ≤ largest))
from_chars_whole largest n text = (
  read_only largest n text,
  λ (h : AreDigits text × (text ≢ []) × (value_from 0 text ≡ n) × (n ≤ largest)).
      reads largest n text h.0 h.1 h.2 h.3,
)

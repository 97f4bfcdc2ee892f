-- ===== src/Session/ContentLength.antt =====
-- Which content-length values on_header_callback() (src/session.cpp) accepts.
use nghttp2_corosio.Base.{ℕ, ◌≤◌, ◌≡◌, refl, ap, ◌∙◌, ◌↔◌, ◌≢◌, some, [], ◌∷◌, arith, Bytes}
use nghttp2_corosio.Decimal.{span_digits, parsed_digits, value_from, from_chars, size_max}
use nghttp2_corosio.Decimal.Digits.{AreDigits}
use nghttp2_corosio.Decimal.RoundTrip.{read, from_chars_whole}
use nghttp2_corosio.Session.Callbacks.{accepted, content_length_of}

parsed_digits-accepted :
    (n : ℕ) (text ds rest : Bytes)
    → accepted (parsed_digits size_max text ds rest) ≡ some n
    → parsed_digits size_max text ds rest ≡ read n []
unfolding accepted parsed_digits
parsed_digits-accepted n text [] rest h = absurd (cc)
parsed_digits-accepted n text (d ∷ ds) [] h = ground arith
parsed_digits-accepted n text (d ∷ ds) (c ∷ rest) h = absurd (ground arith)

from_chars-accepted :
    (n : ℕ) (text : Bytes) → content_length_of text ≡ some n → from_chars size_max text ≡ read n []
unfolding content_length_of from_chars
from_chars-accepted n text h =
    parsed_digits-accepted n text (span_digits text).0 (span_digits text).1 h

-- The callback takes a content-length value for the number n exactly if it is digits alone, at least
-- one, that spell n, and n fits in 64 bits; anything else is ignored.
pub content_length_of_iff :
    (n : ℕ) (text : Bytes)
    → (content_length_of text ≡ some n)
      ↔ (AreDigits text × (text ≢ []) × (value_from 0 text ≡ n) × (n ≤ size_max))
unfolding content_length_of
content_length_of_iff n text =
    let whole = from_chars_whole size_max n text in
    (
      λ h. whole.0 (from_chars-accepted n text h),
      λ (h : AreDigits text × (text ≢ []) × (value_from 0 text ≡ n) × (n ≤ size_max)).
          ap accepted (whole.1 h) ∙ (unfold accepted in refl),
    )

-- ===== src/Decimal.antt =====
-- Decimal numbers in header values: std::from_chars and std::to_string as src/session.cpp and
-- include/nghttp2-corosio/session.hpp use them, for an unsigned type with a largest value.
pub mod Digits
pub mod RoundTrip
use nghttp2_corosio.Base.{
  ℕ, zero, suc, ◌+◌, ◌-◌, ◌*◌, ◌/◌, ◌%◌, ◌^◌, Bool, true, false, ◌&&◌, Option, none, some, List, [],
  ◌∷◌, ◌++◌, Bytes, ltb, leb, is_empty, if◌then◌else◌,
}

pub data Errc : Type 0 where
  ok invalid_argument result_out_of_range : Errc

-- `value` is what is written through the reference, if anything; `rest` is the text from `ptr` on.
pub record Parsed : Type 0 where
  pub value : Option ℕ
  pub rest : Bytes
  pub ec : Errc

abbrev pub is_digit : ℕ → Bool
is_digit c = leb b'0' c && leb c b'9'

-- The longest prefix of digits, and what follows it.
unfoldable pub span_digits : Bytes → Bytes × Bytes
span_digits [] = ([], [])
span_digits (c ∷ cs) =
    let (ds, rest) = span_digits cs in if is_digit c then (c ∷ ds, rest) else ([], c ∷ cs)

unfoldable pub value_from : ℕ → Bytes → ℕ
value_from acc [] = acc
value_from acc (c ∷ cs) = value_from (acc * 10 + (c - b'0')) cs

unfoldable pub parsed_digits : ℕ → Bytes → Bytes → Bytes → Parsed
parsed_digits largest text [] rest = record {
  value = none;
  rest = text;
  ec = Errc.invalid_argument;
}
parsed_digits largest text (d ∷ ds) rest =
    let n = value_from 0 (d ∷ ds) in
    if leb n largest
    then record { value = some n; rest = rest; ec = Errc.ok }
    else record { value = none; rest = rest; ec = Errc.result_out_of_range }

unfoldable pub from_chars : ℕ → Bytes → Parsed
unfolding parsed_digits span_digits value_from
from_chars largest text = let (ds, rest) = span_digits text in parsed_digits largest text ds rest

-- With fuel; a number below the fuel has fewer digits than that.
unfoldable pub digits_of : ℕ → ℕ → Bytes
digits_of zero n = []
digits_of (suc f) n =
    let longer = digits_of f (n / 10) ++ (b'0' + n % 10) ∷ [] in
    if ltb n 10 then (b'0' + n) ∷ [] else longer

unfoldable pub to_string : ℕ → Bytes
unfolding digits_of
to_string n = digits_of (suc n) n

-- `std::size_t` and `unsigned int`
abbrev pub size_max : ℕ
size_max = 2 ^ 64 - 1

abbrev pub uint_max : ℕ
uint_max = 2 ^ 32 - 1

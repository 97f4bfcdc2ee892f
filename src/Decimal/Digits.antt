-- ===== src/Decimal/Digits.antt =====
-- What the digit scan of src/session.cpp's number parsing accepts, and what it leaves.
use nghttp2_corosio.Base.{
  ℕ, zero, suc, ◌+◌, ◌-◌, ◌*◌, ◌/◌, ◌%◌, ◌<◌, ◌≡◌, refl, ◌≢◌, true, false, [], ◌∷◌, ◌++◌, arith,
  Bytes, All, All-append, ltb, Bool-cases, inl, inr,
}
use nghttp2_corosio.Decimal.{is_digit, span_digits, value_from, digits_of}

abbrev pub AreDigits : Bytes → Type 0
AreDigits = All (λ c. is_digit c ≡ true)

-- A text that a number may be followed by.
abbrev pub StartsOther : Bytes → Type 0
StartsOther [] = Unit {0}
StartsOther (c ∷ cs) = is_digit c ≡ false

pub span_digits-append :
    (ds rest : Bytes) → AreDigits ds → StartsOther rest → span_digits (ds ++ rest) ≡ (ds, rest)
unfolding span_digits
span_digits-append [] [] h o = refl
span_digits-append [] (c ∷ cs) h o = ground (arith, o)
span_digits-append (d ∷ ds) rest h o = ground (arith, span_digits-append ds rest h.1 o)

pub span_digits-digits : (text : Bytes) → AreDigits (span_digits text).0
unfolding span_digits
span_digits-digits [] = tt
span_digits-digits (c ∷ cs) = ground (arith, span_digits-digits cs)

pub span_digits_split : (text : Bytes) → (span_digits text).0 ++ (span_digits text).1 ≡ text
unfolding span_digits
span_digits_split [] = refl
span_digits_split (c ∷ cs) = ground (arith, span_digits_split cs)

pub value_from-append :
    (acc : ℕ) (ds : Bytes) (d : ℕ)
    → value_from acc (ds ++ d ∷ []) ≡ value_from acc ds * 10 + (d - b'0')
unfolding value_from
value_from-append acc [] d = refl
value_from-append acc (c ∷ cs) d = value_from-append (acc * 10 + (c - b'0')) cs d

pub digits_of-AreDigits : (f n : ℕ) → AreDigits (digits_of f n)
unfolding digits_of
digits_of-AreDigits zero n = tt
digits_of-AreDigits (suc f) n = elim (Bool-cases (ltb n 10)) [
  | inl e ↦ rw e (ground arith, tt)
  | inr e ↦ rw e (
      All-append (λ c. is_digit c ≡ true) (digits_of f (n / 10)) ((b'0' + n % 10) ∷ [])
        (digits_of-AreDigits f (n / 10)) (ground arith, tt))
]

value_from_one : (d : ℕ) → value_from 0 (d ∷ []) ≡ d - b'0'
unfolding value_from
value_from_one d = omega arith

pub value_from-digits_of : (f n : ℕ) → n < f → value_from 0 (digits_of f n) ≡ n
unfolding digits_of
value_from-digits_of zero n h = elim h [ ]
value_from-digits_of (suc f) n h = ground (
  arith,
  value_from_one (b'0' + n),
  value_from-append 0 (digits_of f (n / 10)) (b'0' + n % 10),
  value_from-digits_of f (n / 10),
)

pub digits_of-ne-nil : (f n : ℕ) → digits_of (suc f) n ≢ []
unfolding digits_of
digits_of-ne-nil f n = ground (arith, append_ne (digits_of f (n / 10)) (b'0' + n % 10))
  where
    append_ne : (xs : Bytes) (c : ℕ) → xs ++ c ∷ [] ≢ []
    append_ne [] c e = cc
    append_ne (x ∷ xs) c e = cc

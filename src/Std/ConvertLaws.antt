-- ===== src/Std/ConvertLaws.antt =====
-- A number that is written in decimal is read back.
use vanity.Base.{
  ℕ, ℤ, pos, negsuc, zero, suc, ◌+◌, ◌/◌, ◌%◌, ◌^◌, ◌≤◌, ◌<◌, ◌≡◌, ◌∙◌, Bool, true, false, [], ◌∷◌,
  ◌++◌, length, arith, length-append,
}
use mathlib.Core.List.{append_assoc}
use vanity.Std.Text.{Text}
use vanity.Std.Convert.{
  digits, to_string, is_digit, value_of, count_of, spaces, sign_size, is_negative, is_space,
  convert, strtoull, strtoll, converted, Conversion, unsigned_value, signed_value, int_to_string,
}

-- The range of int64_t.
abbrev pub IsInt64 : ℤ → Type 0
IsInt64 (pos n) = n < 2 ^ 63
IsInt64 (negsuc n) = n < 2 ^ 63

-- What a text of digits may be followed by.
abbrev pub NoDigit : Text → Type 0
NoDigit [] = Unit
NoDigit (c ∷ t) = is_digit c ≡ false

abbrev FirstDigit : Text → Type 0
FirstDigit [] = ⊥
FirstDigit (c ∷ t) = is_digit c ≡ true

value_of-digits : (f n : ℕ) (t : Text) → n < 10 ^ f → value_of 0 (digits f n ++ t) ≡ value_of n t
unfolding digits value_of is_digit
value_of-digits zero n t h = ground arith
value_of-digits (suc f) n t h = ground (
  arith,
  value_of-digits f (n / 10) ((48 + n % 10) ∷ t),
  append_assoc (digits f (n / 10)) ((48 + n % 10) ∷ []) t,
)

count_of-digits :
    (f n : ℕ) (t : Text) → count_of (digits f n ++ t) ≡ length (digits f n) + count_of t
unfolding digits count_of is_digit
count_of-digits zero n t = ground arith
count_of-digits (suc f) n t = ground (
  arith,
  count_of-digits f (n / 10) ((48 + n % 10) ∷ t),
  append_assoc (digits f (n / 10)) ((48 + n % 10) ∷ []) t,
  length-append (digits f (n / 10)) ((48 + n % 10) ∷ []),
)

digits-FirstDigit : (f n : ℕ) (t : Text) → FirstDigit (digits (suc f) n ++ t)
unfolding digits is_digit
digits-FirstDigit zero n t = ground arith
digits-FirstDigit (suc f) n t = ground (
  arith,
  digits-FirstDigit f (n / 10) ((48 + n % 10) ∷ t),
  append_assoc (digits (suc f) (n / 10)) ((48 + n % 10) ∷ []) t,
)

-- Digits begin with no white space and no sign.
first_digit_lem :
    (t : Text)
    → FirstDigit t
    → (spaces t ≡ 0) × (sign_size t ≡ 0) × (is_negative t ≡ false) × (1 ≤ count_of t)
unfolding spaces sign_size is_negative is_digit is_space count_of
first_digit_lem [] h = ground arith
first_digit_lem (c ∷ t) h = ground arith

no_digit_lem : (n : ℕ) (t : Text) → NoDigit t → (value_of n t ≡ n) × (count_of t ≡ 0)
unfolding value_of count_of
no_digit_lem n [] h = ground arith
no_digit_lem n (c ∷ t) h = ground arith

-- What is converted, after a sign or without one.
convert_unsigned :
    {A : Type 0} (value : Bool → ℕ → ℕ → Conversion A) (n k : ℕ) (u : Text)
    → spaces u ≡ 0
    → sign_size u ≡ 0
    → is_negative u ≡ false
    → count_of u ≡ k
    → 1 ≤ k
    → value_of 0 u ≡ n
    → convert value u ≡ value false n k
unfolding convert
convert_unsigned value n k u h1 h2 h3 h4 h5 h6 = rw (h1, h2, h3, h4, h6) (ground arith)

convert_negative :
    {A : Type 0} (value : Bool → ℕ → ℕ → Conversion A) (n k : ℕ) (u : Text)
    → count_of u ≡ k
    → 1 ≤ k
    → value_of 0 u ≡ n
    → convert value (45 ∷ u) ≡ value true n (suc k)
unfolding convert spaces is_space sign_size is_negative
convert_negative value n k u h4 h5 h6 = ground (arith)

module _ (n : ℕ) (t : Text) (h : n < 2 ^ 64) (hd : NoDigit t) where
  count_lem : count_of (to_string n ++ t) ≡ length (to_string n)
  unfolding to_string
  count_lem = omega (arith, count_of-digits 20 n t, (no_digit_lem n t hd).1)

  value_lem : value_of 0 (to_string n ++ t) ≡ n
  unfolding to_string
  value_lem = value_of-digits 20 n t (omega arith) ∙ (no_digit_lem n t hd).0

  size_lem : 1 ≤ length (to_string n)
  unfolding to_string
  size_lem =
      omega (arith, count_lem, (first_digit_lem (digits 20 n ++ t) (digits-FirstDigit 19 n t)).3)

  to_string_converted :
      {A : Type 0} (value : Bool → ℕ → ℕ → Conversion A)
      → convert value (to_string n ++ t) ≡ value false n (length (to_string n))
  unfolding to_string
  to_string_converted value =
      let first = first_digit_lem (digits 20 n ++ t) (digits-FirstDigit 19 n t) in
      convert_unsigned value n (length (to_string n)) (to_string n ++ t) first.0 first.1 first.2
        count_lem size_lem value_lem

  pub negative_converted :
      {A : Type 0} (value : Bool → ℕ → ℕ → Conversion A)
      → convert value (45 ∷ (to_string n ++ t)) ≡ value true n (suc (length (to_string n)))
  negative_converted value =
      convert_negative value n (length (to_string n)) (to_string n ++ t) count_lem size_lem
        value_lem

-- A size that to_string has written is what strtoull reads, if no digit follows.
pub strtoull-to_string :
    (n : ℕ) (t : Text)
    → n < 2 ^ 64
    → NoDigit t
    → strtoull (to_string n ++ t) ≡ converted n (length (to_string n))
unfolding strtoull
strtoull-to_string n t h hd = to_string_converted n t h hd unsigned_value ∙ ground arith

-- A byte is used for a sign too.
pub strtoll-int_to_string :
    (n : ℤ) (t : Text)
    → IsInt64 n
    → NoDigit t
    → strtoll (int_to_string n ++ t) ≡ converted n (length (int_to_string n))
unfolding strtoll int_to_string
strtoll-int_to_string (pos n) t h hd =
    to_string_converted n t (omega arith) hd signed_value ∙ ground arith
strtoll-int_to_string (negsuc n) t h hd =
    negative_converted (suc n) t (omega arith) hd signed_value ∙ ground arith

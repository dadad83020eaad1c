-- ===== src/Std/Convert.antt =====
-- std::to_string, std::strtoull and std::strtoll, in base 10, on bytes.
use vanity.Base.{
  ℕ, zero, suc, ◌+◌, ◌-◌, ◌*◌, ◌/◌, ◌%◌, ◌^◌, Bool, false, ◌&&◌, ◌||◌, [], ◌∷◌, ◌++◌, ltb, leb,
  ◌==◌, if◌then◌else◌, ℤ, pos, negsuc, drop,
}
use vanity.Std.Text.{Text}

-- isspace in the "C" locale
unfoldable pub is_space : ℕ → Bool
is_space c = (leb 9 c && leb c 13) || c == 32

unfoldable pub is_digit : ℕ → Bool
is_digit c = leb 48 c && leb c 57

-- The decimal digits of a number below 10 ^ f, without leading zeros.
unfoldable pub digits : ℕ → ℕ → Text
digits zero n = []
digits (suc f) n =
    let front = digits f (n / 10) in if ltb n 10 then (48 + n) ∷ [] else front ++ (48 + n % 10) ∷ []

-- std::to_string of a size_t, which has at most 20 digits
unfoldable pub to_string : ℕ → Text
unfolding digits
to_string n = digits 20 n

-- std::to_string of an int64_t
unfoldable pub int_to_string : ℤ → Text
unfolding to_string
int_to_string (pos n) = to_string n
int_to_string (negsuc n) = 45 ∷ to_string (suc n)

-- How many bytes of white space a text begins with.
unfoldable pub spaces : Text → ℕ
spaces [] = 0
spaces (c ∷ t) = let rest = spaces t in if is_space c then suc rest else 0

-- The digits that a text begins with: what they add to a number, and how many they are.
unfoldable pub value_of : ℕ → Text → ℕ
value_of acc [] = acc
value_of acc (c ∷ t) =
    let rest = value_of (acc * 10 + (c - 48)) t in if is_digit c then rest else acc

unfoldable pub count_of : Text → ℕ
count_of [] = 0
count_of (c ∷ t) = let rest = count_of t in if is_digit c then suc rest else 0

-- How a conversion ends: without digits, with ERANGE, or with a value and a count of bytes.
pub data Conversion (A : Type 0) : Type 0 where
  no_conversion range_error : Conversion A
  converted : A → ℕ → Conversion A

-- The bytes of an optional sign.
unfoldable pub sign_size : Text → ℕ
sign_size [] = 0
sign_size (c ∷ t) = if c == 43 || c == 45 then 1 else 0

unfoldable pub is_negative : Text → Bool
is_negative [] = false
is_negative (c ∷ t) = c == 45

-- The conversion, when the white space is skipped and the sign is read.
abbrev pub unsigned_value : Bool → ℕ → ℕ → Conversion ℕ
unsigned_value negative v n =
    if leb (2 ^ 64) v
    then range_error
    else converted (if negative then (2 ^ 64 - v) % 2 ^ 64 else v) n

abbrev pub negated : ℕ → ℤ
negated zero = pos 0
negated (suc n) = negsuc n

abbrev pub signed_value : Bool → ℕ → ℕ → Conversion ℤ
signed_value negative v n =
    if negative
    then (if ltb (2 ^ 63) v then range_error else converted (negated v) n)
    else (if leb (2 ^ 63) v then range_error else converted (pos v) n)

module _ {A : Type 0} (value : Bool → ℕ → ℕ → Conversion A) where
  unfoldable pub convert : Text → Conversion A
  unfolding spaces sign_size is_negative value_of count_of
  convert t =
      let s = spaces t in
      let u = drop s t in
      let g = sign_size u in
      let d = drop g u in
      let n = count_of d in
      if n == 0 then no_conversion else value (is_negative u) (value_of 0 d) (s + g + n)

-- A negative number is converted to its remainder modulo 2 ^ 64, without an error.
unfoldable pub strtoull : Text → Conversion ℕ
unfolding convert
strtoull t = convert unsigned_value t

unfoldable pub strtoll : Text → Conversion ℤ
unfolding convert
strtoll t = convert signed_value t

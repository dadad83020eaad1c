-- ===== src/Response/Reading.antt =====
-- Steps of vanity/request/extractable.cpp at a position where the message goes on in a known way.
use vanity.Base.{
  ℕ, zero, suc, ◌+◌, ◌^◌, ◌≤◌, ◌<◌, ◌≡◌, refl, ap, ◌∙◌, false, [], ◌∷◌, ◌++◌, length, drop, get_or,
  arith, length-append, length-drop, take-append,
}
use mathlib.Core.List.{append_assoc}
use vanity.Std.Text.{Text, codes}
use vanity.Std.Convert.{to_string, spaces, is_space, is_digit, strtoull, converted}
use vanity.Std.ConvertLaws.{strtoull-to_string}
use vanity.Request.Extractable.{
  parsed, current, end, advance, expect, skip_whitespace, ensure_not_end, take_number,
}
use vanity.Request.Objects.{get_len, get_str, take_str, rest_of_message}
use vanity.Response.{serialize_length, serialize_string_body}

drop_cons :
    (msg : Text) (p c : ℕ) (t : Text)
    → drop p msg ≡ c ∷ t
    → (p < length msg) × (get_or msg p 0 ≡ c) × (drop (suc p) msg ≡ t)
drop_cons [] zero c t h = ground arith
drop_cons [] (suc p) c t h = ground arith
drop_cons (x ∷ msg) zero c t h = ground arith
drop_cons (x ∷ msg) (suc p) c t h = ground (arith, drop_cons msg p c t)

-- What follows the bytes that were read.
pub drop_past :
    (s msg : Text) (p : ℕ) (t : Text) → drop p msg ≡ s ++ t → drop (p + length s) msg ≡ t
drop_past [] msg p t h = let e : p + 0 ≡ p = omega arith in rw e h
drop_past (c ∷ s) msg p t h =
    let e : p + suc (length s) ≡ suc p + length s = omega arith in
    rw e (drop_past s msg (suc p) t (drop_cons msg p c (s ++ t) h).2)

-- The position stays in the message.
pub past_within :
    (s msg : Text) (p : ℕ) (t : Text)
    → p ≤ length msg
    → drop p msg ≡ s ++ t
    → p + length s ≤ length msg
past_within s msg p t hp h = omega (arith, ap length h, length-append s t, length-drop p msg)

pub paren_lem : is_digit 41 ≡ false
unfolding is_digit
paren_lem = refl

module _ (msg : Text) (small : length msg < 2 ^ 64) where
  pub expect_at :
      (p c : ℕ) (t err : Text) → drop p msg ≡ c ∷ t → expect msg c err p ≡ parsed tt (suc p)
  unfolding expect current advance
  expect_at p c t err h = ground (arith, drop_cons msg p c t h)

  pub ensure_not_end_at :
      (p c : ℕ) (t : Text)
      → drop p msg ≡ c ∷ t
      → is_space c ≡ false
      → ensure_not_end msg p ≡ parsed tt p
  unfolding ensure_not_end skip_whitespace end spaces
  ensure_not_end_at p c t h hc = ground (arith, drop_cons msg p c t h)

  rest_at :
      (p : ℕ) (t : Text) → p ≤ length msg → drop p msg ≡ t → rest_of_message msg p ≡ parsed t p
  unfolding rest_of_message current
  rest_at p t hp h = ground (arith)

  advance_at :
      (s t : Text) (p : ℕ)
      → p ≤ length msg
      → drop p msg ≡ s ++ t
      → advance (length s) p ≡ parsed tt (p + length s)
  unfolding advance
  advance_at s t p hp h = ground (arith, past_within s msg p t hp h)

  number_at :
      {A : Type 0} (x : A) (s t e1 e2 : Text) (p : ℕ)
      → p ≤ length msg
      → drop p msg ≡ s ++ t
      → take_number (converted x (length s)) e1 e2 p ≡ parsed x (p + length s)
  unfolding take_number advance
  number_at x s t e1 e2 p hp h = ground (arith, past_within s msg p t hp h)

  pub get_len_digits :
      (p n : ℕ) (d t : Text)
      → strtoull (d ++ 41 ∷ t) ≡ converted n (length d)
      → drop p msg ≡ 40 ∷ (d ++ 41 ∷ t)
      → get_len msg p ≡ parsed n (suc (suc p + length d))
  unfolding get_len is_space
  get_len_digits p n d t hd h =
      let c = drop_cons msg p 40 (d ++ 41 ∷ t) h in
      rw
        (
          ensure_not_end_at p 40 (d ++ 41 ∷ t) h refl,
          expect_at p 40 (d ++ 41 ∷ t) (codes "expected length specifier") h,
          rest_at (suc p) (d ++ 41 ∷ t) (omega (arith, c.0)) c.2,
          hd,
          number_at n d (41 ∷ t) (codes "length out of range") (codes "invalid length") (suc p)
              (omega (arith, c.0)) c.2,
          expect_at (suc p + length d) 41 t (codes "expected length specifier")
              (drop_past d msg (suc p) (41 ∷ t) c.2),
        )
        refl

  -- A length is read back.
  pub get_len_at :
      (p n : ℕ) (t : Text)
      → n < 2 ^ 64
      → drop p msg ≡ serialize_length n ++ t
      → get_len msg p ≡ parsed n (p + length (serialize_length n))
  unfolding serialize_length
  get_len_at p n t hn h =
      let d = to_string n in
      let e = h ∙ ap (λ (l : Text). 40 ∷ l) (append_assoc d (41 ∷ []) t) in
      let k : suc (suc p + length d) ≡ p + length (40 ∷ (d ++ 41 ∷ [])) =
        omega (arith, length-append d (41 ∷ [])) in
      get_len_digits p n d t (strtoull-to_string n (41 ∷ t) hn paren_lem) e ∙ ap (λ q. parsed n q) k

  take_str_at :
      (q : ℕ) (s t : Text)
      → q ≤ length msg
      → drop q msg ≡ s ++ t
      → take_str msg (length s) q ≡ parsed s (q + length s)
  unfolding take_str
  take_str_at q s t hq h = ground (arith, past_within s msg q t hq h, take-append s t)

  get_str_after :
      (p q : ℕ) (s t : Text)
      → get_len msg p ≡ parsed (length s) q
      → q ≤ length msg
      → drop q msg ≡ s ++ t
      → get_str msg p ≡ parsed s (q + length s)
  unfolding get_str
  get_str_after p q s t hl hq h = rw hl (take_str_at q s t hq h)

  -- A string is read back.
  pub get_str_at :
      (p : ℕ) (s t : Text)
      → p ≤ length msg
      → drop p msg ≡ serialize_string_body s ++ t
      → get_str msg p ≡ parsed s (p + length (serialize_string_body s))
  unfolding serialize_string_body
  get_str_at p s t hp h =
      let l = serialize_length (length s) in
      let e = h ∙ append_assoc l s t in
      let q = p + length l in
      let hq = past_within l msg p (s ++ t) hp e in
      let r = drop_past l msg p (s ++ t) e in
      let n = past_within s msg q t hq r in
      let k : q + length s ≡ p + length (l ++ s) = omega (arith, length-append l s) in
      get_str_after p q s t (get_len_at p (length s) (s ++ t) (omega arith) e) hq r
      ∙ ap (λ x. parsed s x) k

-- ===== src/Response/Backwards.antt =====
-- vanity/request/extractable.cpp: a negative length, which std::strtoull reads as a huge one.
use vanity.Base.{
  ℕ, zero, suc, ◌+◌, ◌-◌, ◌^◌, ◌≤◌, ◌<◌, ◌≡◌, refl, ap, ◌∙◌, [], ◌∷◌, ◌++◌, length, drop, take_all,
  arith, length-append, length-drop, replicate,
}
use mathlib.Core.List.{append_assoc}
use vanity.Std.Text.{Text}
use vanity.Std.Convert.{to_string, strtoull, converted, unsigned_value}
use vanity.Std.ConvertLaws.{negative_converted}
use vanity.Request.Extractable.{parsed, has_up_to, advance}
use vanity.Request.Objects.{get_str, take_str, substr, get_strs}
use vanity.Response.Reading.{get_len_digits, drop_past, past_within, paren_lem}

-- The length -k, as a client may write it.
abbrev pub negative_length : ℕ → Text
negative_length k = 40 ∷ (45 ∷ (to_string k ++ 41 ∷ []))

strtoull-negative :
    (k : ℕ) (t : Text)
    → 1 ≤ k
    → k < 2 ^ 64
    → strtoull (45 ∷ (to_string k ++ 41 ∷ t)) ≡ converted (2 ^ 64 - k) (suc (length (to_string k)))
unfolding strtoull
strtoull-negative k t h1 h2 =
    negative_converted k (41 ∷ t) h2 paren_lem unsigned_value ∙ ground arith

module _ (msg : Text) (small : length msg < 2 ^ 64) where
  take_str_back :
      (q k : ℕ)
      → 1 ≤ k
      → k ≤ q
      → q ≤ length msg
      → take_str msg (2 ^ 64 - k) q ≡ parsed (drop q msg) (q - k)
  unfolding take_str has_up_to substr advance
  take_str_back q k h1 h2 hq =
      ground (arith, take_all (2 ^ 64 - k) (drop q msg) (omega (arith, length-drop q msg)))

  -- In a message below 2 ^ 64 bytes, a string whose length is written as -k, for a k of at most the
  -- position behind it, is read as all that follows, and the position goes back by k.
  pub get_str-negative :
      (p k : ℕ) (t : Text)
      → 1 ≤ k
      → k < 2 ^ 64
      → k ≤ p + length (negative_length k)
      → p ≤ length msg
      → drop p msg ≡ negative_length k ++ t
      → get_str msg p ≡ parsed t (p + length (negative_length k) - k)
  unfolding get_str
  get_str-negative p k t h1 h2 hk hp h =
      let d = to_string k in
      let c = negative_length k in
      let q = p + length c in
      let e = h ∙ ap (λ (x : Text). 40 ∷ (45 ∷ x)) (append_assoc d (41 ∷ []) t) in
      let hq : suc (suc p + length (45 ∷ d)) ≡ q = omega (arith, length-append d (41 ∷ [])) in
      let l =
        get_len_digits msg small p (2 ^ 64 - k) (45 ∷ d) t (strtoull-negative k t h1 h2) e
        ∙ ap (λ x. parsed (2 ^ 64 - k) x) hq in
      let r = drop_past c msg p t h in
      rw (l, take_str_back q k h1 hk (past_within c msg p t hp h)) (ap (λ x. parsed x (q - k)) r)

  -- The same where -k leads back to the length itself: any number of strings is read from it, all the
  -- same, and the position stays.
  pub get_strs-negative :
      (n p k : ℕ) (t : Text)
      → 1 ≤ k
      → k < 2 ^ 64
      → k ≡ length (negative_length k)
      → p ≤ length msg
      → drop p msg ≡ negative_length k ++ t
      → get_strs msg n p ≡ parsed (replicate n t) p
  unfolding get_strs
  get_strs-negative zero p k t h1 h2 hk hp h = refl
  get_strs-negative (suc n) p k t h1 h2 hk hp h =
      let back : p + length (negative_length k) - k ≡ p = omega arith in
      rw
        (
          get_str-negative p k t h1 h2 (omega arith) hp h,
          back,
          get_strs-negative n p k t h1 h2 hk hp h,
        )
        refl

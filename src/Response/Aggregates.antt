-- ===== src/Response/Aggregates.antt =====
-- vanity/response/aggregate_response.h: what a pipe sends of its responses.
use vanity.Base.{
  ◌≡◌, ◌↔◌, refl, ap, Bool, true, false, ◌||◌, [], ◌∷◌, ◌++◌, ◌==◌, ◌≤◌, suc, length, arith,
  length-append,
}
use vanity.Std.Text.{Text}
use vanity.Response.{c_string, append}

-- Whether a text has a zero byte.
unfoldable pub has_zero : Text → Bool
has_zero [] = false
has_zero (c ∷ t) = c == 0 || has_zero t

c_string_complete : (t : Text) → has_zero t ≡ false → c_string t ≡ t
unfolding c_string has_zero
c_string_complete [] h = refl
c_string_complete (c ∷ t) h = ground (arith, c_string_complete t)

length-c_string : (t : Text) → length (c_string t) ≤ length t
unfolding c_string
length-c_string [] = omega arith
length-c_string (c ∷ t) = ground (arith, length-c_string t)

c_string-cut : (t : Text) → has_zero t ≡ true → suc (length (c_string t)) ≤ length t
unfolding c_string has_zero
c_string-cut [] h = ground arith
c_string-cut (c ∷ t) h = ground (arith, c_string-cut t)

-- A response is added to that of a pipe as a whole exactly if it has no zero byte.
pub append_complete :
    (aggregated body : Text)
    → (append aggregated body ≡ aggregated ++ body) ↔ (has_zero body ≡ false)
unfolding append
append_complete aggregated body = (
  λ h. ground (
    arith,
    ap length h,
    length-append aggregated (c_string body),
    length-append aggregated body,
    c_string-cut body,
  ),
  λ h. ap (λ (t : Text). aggregated ++ t) (c_string_complete body h),
)

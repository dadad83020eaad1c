-- ===== src/Std/Text.antt =====
-- std::string as its bytes, with the comparison that the containers and the commands use.
use vanity.Base.{ℕ, ◌≡◌, refl, ◌↔◌, Bool, true, false, ◌&&◌, List, [], ◌∷◌, arith, ◌==◌}
use Prim.Native.Char.{code}
use Prim.Native.String.{String}

-- string_t
abbrev pub Text : Type 0
Text = List ℕ

-- The bytes of an ASCII literal.
abbrev pub codes : String → Text
codes String.[] = []
codes (String.◌∷◌ c s) = code c ∷ codes s

-- operator== on std::string
unfoldable pub text_eq : Text → Text → Bool
text_eq [] [] = true
text_eq (a ∷ s) (b ∷ t) = a == b && text_eq s t
text_eq _ _ = false

pub eq_iff : (s t : Text) → (text_eq s t ≡ true) ↔ (s ≡ t)
unfolding text_eq
eq_iff [] [] = ground arith
eq_iff [] (b ∷ t) = ground arith
eq_iff (a ∷ s) [] = ground arith
eq_iff (a ∷ s) (b ∷ t) = ground (arith, eq_iff s t)

pub eq_refl : (s : Text) → text_eq s s ≡ true
eq_refl s = (eq_iff s s).1 refl

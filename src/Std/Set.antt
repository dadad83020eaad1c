-- ===== src/Std/Set.antt =====
-- std::unordered_set of strings.
use vanity.Base.{◌≡◌, refl, Bool, false, not, ◌&&◌, ◌||◌, List, [], ◌∷◌, arith, if◌then◌else◌}
use vanity.Std.Text.{Text, text_eq, eq_iff}

abbrev pub Set : Type 0
Set = List Text

unfoldable pub member : Text → Set → Bool
member x [] = false
member x (y ∷ s) = text_eq y x || member x s

-- No element is there twice, which the standard guarantees of every unordered_set.
abbrev pub IsSetValue : Set → Type 0
IsSetValue [] = Unit
IsSetValue (x ∷ s) = (member x s ≡ false) × IsSetValue s

-- insert(x): nothing happens if an equal element is there
unfoldable pub insert : Text → Set → Set
insert x s = if member x s then s else x ∷ s

-- erase(x), and what extract(x) leaves behind
unfoldable pub erase : Text → Set → Set
erase x [] = []
erase x (y ∷ s) = let rest = erase x s in if text_eq y x then rest else y ∷ rest

-- s.merge(t), as far as s is concerned; also repeated insertion
unfoldable pub merge : Set → Set → Set
merge s [] = s
merge s (x ∷ t) = merge (insert x s) t

-- for (v : vs) s.erase(v)
unfoldable pub erase_all : List Text → Set → Set
erase_all [] s = s
erase_all (v ∷ vs) s = erase_all vs (erase v s)

pub member-insert : (x y : Text) (s : Set) → member y (insert x s) ≡ text_eq x y || member y s
unfolding member insert
member-insert x y s = ground (arith, eq_iff x y)

pub member-erase : (x y : Text) (s : Set) → member y (erase x s) ≡ not (text_eq x y) && member y s
unfolding member erase
member-erase x y [] = ground arith
member-erase x y (z ∷ s) = ground (arith, member-erase x y s, eq_iff x y, eq_iff z x, eq_iff z y)

pub member-merge : (x : Text) (t s : Set) → member x (merge s t) ≡ member x s || member x t
unfolding merge member
member-merge x [] s = ground arith
member-merge x (y ∷ t) s = ground (arith, member-merge x t (insert y s), member-insert y x s)

pub member-erase_all :
    (x : Text) (vs : List Text) (s : Set)
    → member x (erase_all vs s) ≡ not (member x vs) && member x s
unfolding erase_all member
member-erase_all x [] s = refl
member-erase_all x (v ∷ vs) s =
    ground (arith, member-erase_all x vs (erase v s), member-erase v x s)

pub insert-IsSetValue : (x : Text) (s : Set) → IsSetValue s → IsSetValue (insert x s)
unfolding insert
insert-IsSetValue x s h = ground arith

pub erase-IsSetValue : (x : Text) (s : Set) → IsSetValue s → IsSetValue (erase x s)
unfolding erase
erase-IsSetValue x [] h = h
erase-IsSetValue x (y ∷ s) h = ground (arith, erase-IsSetValue x s h.1, member-erase x y s)

pub merge-IsSetValue : (t s : Set) → IsSetValue s → IsSetValue (merge s t)
unfolding merge
merge-IsSetValue [] s h = h
merge-IsSetValue (x ∷ t) s h = merge-IsSetValue t (insert x s) (insert-IsSetValue x s h)

pub erase_all-IsSetValue : (vs : List Text) (s : Set) → IsSetValue s → IsSetValue (erase_all vs s)
unfolding erase_all
erase_all-IsSetValue [] s h = h
erase_all-IsSetValue (v ∷ vs) s h = erase_all-IsSetValue vs (erase v s) (erase-IsSetValue v s h)

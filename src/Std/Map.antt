-- ===== src/Std/Map.antt =====
-- std::unordered_map with string keys.
use vanity.Base.{
  ◌≡◌, refl, Bool, true, false, Option, none, some, List, [], ◌∷◌, arith, if◌then◌else◌,
}
use vanity.Std.Set.{member}
use vanity.Std.Text.{Text, text_eq, eq_iff, eq_refl}

abbrev pub Map {ℓ} : Type ℓ → Type ℓ
Map V = List (Text × V)

abbrev pub is_some {ℓ} : {A : Type ℓ} → Option A → Bool
is_some none = false
is_some (some a) = true

module _ {ℓ} {V : Type ℓ} where
  -- at(k), find(k)
  unfoldable pub find : Text → Map V → Option V
  find k [] = none
  find k ((j, v) ∷ m) = if text_eq j k then some v else find k m

  -- m[k] = v: a new key comes after the others
  unfoldable pub assign : Text → V → Map V → Map V
  assign k v [] = (k, v) ∷ []
  assign k v ((j, w) ∷ m) = if text_eq j k then (k, v) ∷ m else (j, w) ∷ assign k v m

  -- erase(k)
  unfoldable pub erase : Text → Map V → Map V
  erase k [] = []
  erase k ((j, v) ∷ m) = let rest = erase k m in if text_eq j k then rest else (j, v) ∷ rest

  pub find-assign :
      (k j : Text) (v : V) (m : Map V)
      → find j (assign k v m) ≡ (if text_eq k j then some v else find j m)
  unfolding find assign
  find-assign k j v [] = refl
  find-assign k j v ((i, w) ∷ m) =
      ground (arith, eq_iff k j, eq_iff i k, eq_iff i j, find-assign k j v m)

  pub find-erase :
      (k j : Text) (m : Map V) → find j (erase k m) ≡ (if text_eq k j then none else find j m)
  unfolding find erase
  find-erase k j [] = ground arith
  find-erase k j ((i, w) ∷ m) = ground (arith, eq_iff k j, eq_iff i k, eq_iff i j, find-erase k j m)

  pub find-assign_self : (k : Text) (v : V) (m : Map V) → find k (assign k v m) ≡ some v
  find-assign_self k v m = ground (arith, find-assign k k v m, eq_refl k)

  pub find-erase_self : (k : Text) (m : Map V) → find k (erase k m) ≡ none
  find-erase_self k m = ground (arith, find-erase k k m, eq_refl k)

  -- contains(k)
  abbrev pub contains : Text → Map V → Bool
  contains k m = is_some (find k m)

  -- Erasing a key that is not there changes nothing.
  pub erase_absent : (k : Text) (m : Map V) → find k m ≡ none → erase k m ≡ m
  unfolding find erase
  erase_absent k [] h = refl
  erase_absent k ((j, v) ∷ m) h = ground (arith, erase_absent k m)

-- The keys of a map, in its order of iteration.
unfoldable pub keys {ℓ} : {V : Type ℓ} → Map V → List Text
keys [] = []
keys ((k, v) ∷ m) = k ∷ keys m

unfoldable pub values {ℓ} : {V : Type ℓ} → Map V → List V
values [] = []
values ((k, v) ∷ m) = v ∷ values m

pub member-keys {ℓ} : {V : Type ℓ} (k : Text) (m : Map V) → member k (keys m) ≡ contains k m
unfolding member find keys
member-keys k [] = refl
member-keys k ((j, v) ∷ m) = ground (arith, member-keys k m)

pub ruleset map_laws = (find-assign, find-erase, find-assign_self, find-erase_self)

-- ===== src/Database/SetDatabase/AlgebraLaws.antt =====
-- What the unions, intersections and differences of vanity/db/db/set_database.cpp hold, element by
-- element.
use vanity.Base.{
  ℤ, ◌≡◌, refl, ap, Bool, true, false, not, ◌&&◌, ◌||◌, Option, none, some, List, [], ◌∷◌, arith,
}
use vanity.Std.Text.{Text, text_eq, eq_iff}
use vanity.Std.Map.{Map, find}
use vanity.Std.Set.{Set, member, insert, merge, member-insert, member-merge}
use vanity.Operations.{Data, set_t}
use vanity.Database.{Database}
use vanity.Database.Expiry.{refresh, refresh_all}
use vanity.Database.SetDatabase.{on_set}
use vanity.Database.SetDatabase.Algebra.{
  Collected, all_sets, missing, not_set, collect_union, merge_sets, union_sets, set_union, smallest,
  is_common, common_values, collect_intersection, intersect, set_intersection, difference_values,
  difference, set_difference,
}

-- Whether any, or every, set of a list has the element.
any_member : Text → List Set → Bool
any_member x [] = false
any_member x (s ∷ sets) = member x s || any_member x sets

every_member : Text → List Set → Bool
every_member x [] = true
every_member x (s ∷ sets) = member x s && every_member x sets

member-merge_sets :
    (x : Text) (r : Set) (sets : List Set)
    → member x (merge_sets r sets) ≡ member x r || any_member x sets
unfolding merge_sets any_member
member-merge_sets x r [] = ground arith
member-merge_sets x r (s ∷ sets) =
    ground (arith, member-merge_sets x (merge r s) sets, member-merge x s r)

-- What a value of a key says on whether the union has an element, where the others say `r`.
abbrev pub or_in : Text → Option Data → Option Bool → Option Bool
or_in x none r = r
or_in x (some (set_t s)) none = none
or_in x (some (set_t s)) (some b) = some (member x s || b)
or_in x (some _) r = none

-- Whether the union of the sets at some keys has an element: no answer if a value is not a set.
unfoldable pub in_union : Text → List Text → Map Data → Option Bool
in_union x [] m = some false
in_union x (k ∷ ks) m = or_in x (find k m) (in_union x ks m)

-- The same for the intersection, which looks at the keys from left to right, up to one that is missing.
abbrev pub and_in : Text → Option Data → Option Bool → Option Bool
and_in x none r = some false
and_in x (some (set_t s)) none = none
and_in x (some (set_t s)) (some b) = some (member x s && b)
and_in x (some _) r = none

unfoldable pub in_all : Text → List Text → Map Data → Option Bool
in_all x [] m = some true
in_all x (k ∷ ks) m = and_in x (find k m) (in_all x ks m)

abbrev pub in_intersection : Text → List Text → Map Data → Option Bool
in_intersection x [] m = some false
in_intersection x (k ∷ ks) m = in_all x (k ∷ ks) m

-- Whether the difference of two values has an element.
abbrev pub in_difference : Text → Option Data → Option Data → Option Bool
in_difference x (some (set_t s)) (some (set_t t)) = some (member x s && not (member x t))
in_difference x (some _) (some _) = none
in_difference x _ _ = some false

on_any : Text → Option (List Set) → Option Bool
on_any x none = none
on_any x (some sets) = some (any_member x sets)

any-collect_union :
    (x : Text) (ks : List Text) (m : Map Data) → on_any x (collect_union ks m) ≡ in_union x ks m
unfolding on_any any_member collect_union in_union
any-collect_union x [] m = refl
any-collect_union x (k ∷ ks) m = ground (arith, any-collect_union x ks m)

member-union_sets :
    (x : Text) (o : Option (List Set)) → on_set (member x) (union_sets o) ≡ on_any x o
unfolding on_any union_sets member
member-union_sets x none = refl
member-union_sets x (some sets) = ground (arith, member-merge_sets x [] sets)

-- SET_UNION answers with no set exactly where one of the keys, once those that are due are expired, has a
-- value that is not a set. Else the elements of its answer are those of the sets at the keys.
pub set_union_lem :
    (now : ℤ) (ks : List Text) (db : Database) (x : Text)
    → on_set (member x) (set_union now ks db).0 ≡ in_union x ks (refresh_all now ks db).m_data
unfolding set_union
set_union_lem now ks db x = ground (
  arith,
  member-union_sets x (collect_union ks (refresh_all now ks db).m_data),
  any-collect_union x ks (refresh_all now ks db).m_data,
)

is_common_lem : (x : Text) (sets : List Set) → is_common x sets ≡ every_member x sets
unfolding is_common every_member
is_common_lem x [] = refl
is_common_lem x (s ∷ sets) = ground (arith, is_common_lem x sets)

every_member-subst :
    (x y : Text) (sets : List Set) → text_eq y x ≡ true → every_member y sets ≡ every_member x sets
every_member-subst x y sets h = ground (arith, eq_iff y x)

member-common_values :
    (x : Text) (s : Set) (sets : List Set) (r : Set)
    → member x (common_values s sets r) ≡ member x r || (member x s && every_member x sets)
unfolding common_values member
member-common_values x [] sets r = ground arith
member-common_values x (y ∷ s) sets r = ground (
  arith,
  member-common_values x s sets r,
  member-common_values x s sets (insert y r),
  member-insert y x r,
  is_common_lem y sets,
  every_member-subst x y sets,
)

-- The smallest set is one of the sets, so an element of every set is an element of it.
every_member-smallest :
    (x : Text) (best : Set) (sets : List Set)
    → every_member x (best ∷ sets) ≡ true
    → member x (smallest best sets) ≡ true
unfolding smallest every_member
every_member-smallest x best [] h = ground arith
every_member-smallest x best (s ∷ sets) h =
    ground (arith, every_member-smallest x best sets, every_member-smallest x s sets)

on_every : Text → Collected → Option Bool
on_every x (all_sets []) = some false
on_every x (all_sets (s ∷ sets)) = some (every_member x (s ∷ sets))
on_every x missing = some false
on_every x not_set = none

member-intersect : (x : Text) (c : Collected) → on_set (member x) (intersect c) ≡ on_every x c
unfolding on_every intersect member
member-intersect x (all_sets []) = refl
member-intersect x (all_sets (s ∷ sets)) =
    ground (
      arith,
      member-common_values x (smallest s sets) (s ∷ sets) [],
      every_member-smallest x s sets,
    )
member-intersect x missing = refl
member-intersect x not_set = refl

on_all : Text → Collected → Option Bool
on_all x (all_sets sets) = some (every_member x sets)
on_all x missing = some false
on_all x not_set = none

every-collect_intersection :
    (x : Text) (ks : List Text) (m : Map Data)
    → on_all x (collect_intersection ks m) ≡ in_all x ks m
unfolding on_all every_member collect_intersection in_all
every-collect_intersection x [] m = refl
every-collect_intersection x (k ∷ ks) m = ground (arith, every-collect_intersection x ks m)

on_every_lem :
    (x : Text) (ks : List Text) (m : Map Data)
    → on_every x (collect_intersection ks m) ≡ in_intersection x ks m
unfolding on_every on_all collect_intersection in_all every_member
on_every_lem x [] m = refl
on_every_lem x (k ∷ ks) m = ground (arith, every-collect_intersection x ks m)

-- SET_INTERSECTION of no keys is empty. Else it looks at the keys from left to right, once those that
-- are due are expired. It answers with no set where it meets a value that is not a set, and with an
-- empty set where it first meets a key without a value. Else the elements of its answer are those
-- that every one of the sets has.
pub set_intersection_lem :
    (now : ℤ) (ks : List Text) (db : Database) (x : Text)
    → on_set (member x) (set_intersection now ks db).0
      ≡ in_intersection x ks (refresh_all now ks db).m_data
unfolding set_intersection
set_intersection_lem now ks db x = ground (
  arith,
  member-intersect x (collect_intersection ks (refresh_all now ks db).m_data),
  on_every_lem x ks (refresh_all now ks db).m_data,
)

member-difference_values :
    (x : Text) (s t r : Set)
    → member x (difference_values s t r) ≡ member x r || (member x s && not (member x t))
unfolding difference_values member
member-difference_values x [] t r = ground arith
member-difference_values x (y ∷ s) t r = ground (
  arith,
  member-difference_values x s t r,
  member-difference_values x s t (insert y r),
  member-insert y x r,
  eq_iff y x,
)

member-difference :
    (x : Text) (c d : Option Data) → on_set (member x) (difference c d) ≡ in_difference x c d
unfolding difference member
member-difference x (some (set_t s)) (some (set_t t)) = ap some (member-difference_values x s t [])
member-difference x c d = ground arith

-- SET_DIFFERENCE, once those of the two keys that are due are expired, is empty where one of them has
-- no value, and answers with no set where both have one and not both are sets. Else the elements
-- of its answer are those of the first set that the second has not.
pub set_difference_lem :
    (now : ℤ) (key1 key2 : Text) (db : Database) (x : Text)
    → on_set (member x) (set_difference now key1 key2 db).0
      ≡ in_difference x
          (find key1 (refresh now key2 (refresh now key1 db)).m_data)
          (find key2 (refresh now key2 (refresh now key1 db)).m_data)
unfolding set_difference
set_difference_lem now key1 key2 db x =
    member-difference x (find key1 (refresh now key2 (refresh now key1 db)).m_data)
      (find key2 (refresh now key2 (refresh now key1 db)).m_data)

-- ===== src/Database/SetDatabase/Algebra.antt =====
-- vanity/db/db/set_database.cpp: unions, intersections and differences.
use vanity.Base.{
  ℕ, ltb, ℤ, Bool, true, false, not, Option, none, some, List, [], ◌∷◌, length, if◌then◌else◌,
}
use vanity.Std.Text.{Text}
use vanity.Std.Map.{Map, find}
use vanity.Std.Set.{Set, member, insert, merge}
use vanity.Operations.{Data, set_t}
use vanity.Database.{Database, put}
use vanity.Database.Expiry.{refresh, refresh_all, clear_expiry}
use vanity.Database.SetDatabase.{on_set}

abbrev cons_set : Set → Option (List Set) → Option (List Set)
cons_set s none = none
cons_set s (some sets) = some (s ∷ sets)

-- The first loop of set_union: a missing key is skipped, a value that is no set ends it.
unfoldable pub collect_union : List Text → Map Data → Option (List Set)
collect_union [] m = some []
collect_union (k ∷ ks) m =
    let rest = collect_union ks m in
    elim (find k m) [ none ↦ rest | some (set_t s) ↦ cons_set s rest | some _ ↦ none ]

-- The second loop, which merges a copy of each set.
unfoldable pub merge_sets : Set → List Set → Set
merge_sets result [] = result
merge_sets result (s ∷ sets) = merge_sets (merge result s) sets

unfoldable pub union_sets : Option (List Set) → Option Set
unfolding merge_sets
union_sets none = none
union_sets (some sets) = some (merge_sets [] sets)

unfoldable pub set_union : ℤ → List Text → Database → Option Set × Database
unfolding collect_union union_sets
set_union now keys db =
    let db' = refresh_all now keys db in (union_sets (collect_union keys db'.m_data), db')

-- What the `_into` operations do with a result.
unfoldable pub store_result : Text → Option Set × Database → Option ℕ × Database
unfolding clear_expiry
store_result dest (none, db) = (none, db)
store_result dest (some s, db) = (some (length s), clear_expiry dest (put dest (set_t s) db))

-- What the `_len` operations do with a result.
abbrev pub size_result : Option Set × Database → Option ℕ × Database
size_result (r, db) = (on_set length r, db)

unfoldable pub set_union_into : ℤ → Text → List Text → Database → Option ℕ × Database
unfolding set_union store_result
set_union_into now dest keys db = store_result dest (set_union now keys db)

unfoldable pub set_union_len : ℤ → List Text → Database → Option ℕ × Database
unfolding set_union
set_union_len now keys db = size_result (set_union now keys db)

-- What the first loop of set_intersection ends with: all the sets, an early empty result for a key
-- that is missing, or std::nullopt for a value that is no set.
pub data Collected : Type 0 where
  all_sets : List Set → Collected
  missing not_set : Collected

abbrev cons_collected : Set → Collected → Collected
cons_collected s (all_sets sets) = all_sets (s ∷ sets)
cons_collected s missing = missing
cons_collected s not_set = not_set

unfoldable pub collect_intersection : List Text → Map Data → Collected
collect_intersection [] m = all_sets []
collect_intersection (k ∷ ks) m =
    let rest = collect_intersection ks m in
    elim (find k m) [ none ↦ missing | some (set_t s) ↦ cons_collected s rest | some _ ↦ not_set ]

-- The first of the sets that are smallest.
unfoldable pub smallest : Set → List Set → Set
smallest best [] = best
smallest best (s ∷ sets) = smallest (if ltb (length s) (length best) then s else best) sets

-- The inner loop: the comparison of `&set` with `&smallest` is never true, so every set is asked.
unfoldable pub is_common : Text → List Set → Bool
is_common x [] = true
is_common x (s ∷ sets) = if not (member x s) then false else is_common x sets

unfoldable pub common_values : Set → List Set → Set → Set
unfolding is_common
common_values [] sets result = result
common_values (x ∷ s) sets result =
    common_values s sets (if is_common x sets then insert x result else result)

unfoldable pub intersect : Collected → Option Set
unfolding common_values smallest
intersect (all_sets []) = some []
intersect (all_sets (s ∷ sets)) = some (common_values (smallest s sets) (s ∷ sets) [])
intersect missing = some []
intersect not_set = none

unfoldable pub set_intersection : ℤ → List Text → Database → Option Set × Database
unfolding intersect collect_intersection
set_intersection now keys db =
    let db' = refresh_all now keys db in (intersect (collect_intersection keys db'.m_data), db')

unfoldable pub set_intersection_into : ℤ → Text → List Text → Database → Option ℕ × Database
unfolding set_intersection store_result
set_intersection_into now dest keys db = store_result dest (set_intersection now keys db)

unfoldable pub set_intersection_len : ℤ → List Text → Database → Option ℕ × Database
unfolding set_intersection
set_intersection_len now keys db = size_result (set_intersection now keys db)

unfoldable pub difference_values : Set → Set → Set → Set
difference_values [] set2 result = result
difference_values (x ∷ s) set2 result =
    difference_values s set2 (if not (member x set2) then insert x result else result)

unfoldable pub difference : Option Data → Option Data → Option Set
unfolding difference_values
difference none _ = some []
difference (some _) none = some []
difference (some (set_t set1)) (some (set_t set2)) = some (difference_values set1 set2 [])
difference (some _) (some _) = none

unfoldable pub set_difference : ℤ → Text → Text → Database → Option Set × Database
unfolding difference
set_difference now key1 key2 db =
    let db' = refresh now key2 (refresh now key1 db) in
    (difference (find key1 db'.m_data) (find key2 db'.m_data), db')

unfoldable pub set_difference_into : ℤ → Text → Text → Text → Database → Option ℕ × Database
unfolding set_difference store_result
set_difference_into now dest key1 key2 db = store_result dest (set_difference now key1 key2 db)

unfoldable pub set_difference_len : ℤ → Text → Text → Database → Option ℕ × Database
unfolding set_difference
set_difference_len now key1 key2 db = size_result (set_difference now key1 key2 db)

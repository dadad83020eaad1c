-- ===== src/Database/SetDatabase/AlgebraValid.antt =====
-- The unions, intersections and differences that are stored hold no element twice.
use vanity.Base.{ℤ, Option, none, some, List, [], ◌∷◌, arith, not, if◌then◌else◌}
use vanity.Std.Text.{Text}
use vanity.Std.Map.{find}
use vanity.Std.Set.{Set, member, insert, merge, IsSetValue, insert-IsSetValue, merge-IsSetValue}
use vanity.Operations.{Data, set_t}
use vanity.Database.{Database, IsValid}
use vanity.Database.Expiry.{refresh, refresh_all}
use vanity.Database.Expiry.Laws.{erase_if_expired-IsValid, refresh_all-IsValid}
use vanity.Database.Valid.{put_clear-IsValid}
use vanity.Database.SetDatabase.Algebra.{
  merge_sets, collect_union, union_sets, store_result, set_union_into, is_common, common_values,
  smallest, intersect, Collected, all_sets, missing, not_set, collect_intersection,
  set_intersection_into, difference_values, difference, set_difference_into,
}

abbrev AreSetValue : Option Set → Type 0
AreSetValue none = Unit
AreSetValue (some s) = IsSetValue s

store_result-IsValid :
    (dest : Text) (o : Option Set) {db : Database}
    → AreSetValue o
    → IsValid db
    → IsValid (store_result dest (o, db)).1
unfolding store_result
store_result-IsValid dest none h v = v
store_result-IsValid dest (some s) h v = put_clear-IsValid dest (set_t s) h v

merge_sets-IsSetValue : (sets : List Set) (s : Set) → IsSetValue s → IsSetValue (merge_sets s sets)
unfolding merge_sets
merge_sets-IsSetValue [] s h = h
merge_sets-IsSetValue (t ∷ sets) s h =
    merge_sets-IsSetValue sets (merge s t) (merge-IsSetValue t s h)

union_sets-AreSetValue : (o : Option (List Set)) → AreSetValue (union_sets o)
unfolding union_sets
union_sets-AreSetValue none = tt
union_sets-AreSetValue (some sets) = merge_sets-IsSetValue sets [] tt

common_values-IsSetValue :
    (s : Set) (sets : List Set) (r : Set) → IsSetValue r → IsSetValue (common_values s sets r)
unfolding common_values
common_values-IsSetValue [] sets r h = h
common_values-IsSetValue (x ∷ s) sets r h =
    common_values-IsSetValue s sets (if is_common x sets then insert x r else r)
      (ground (arith, insert-IsSetValue x r h))

intersect-AreSetValue : (c : Collected) → AreSetValue (intersect c)
unfolding intersect
intersect-AreSetValue (all_sets []) = tt
intersect-AreSetValue (all_sets (s ∷ sets)) =
    common_values-IsSetValue (smallest s sets) (s ∷ sets) [] tt
intersect-AreSetValue missing = tt
intersect-AreSetValue not_set = tt

difference_values-IsSetValue : (s t r : Set) → IsSetValue r → IsSetValue (difference_values s t r)
unfolding difference_values
difference_values-IsSetValue [] t r h = h
difference_values-IsSetValue (x ∷ s) t r h =
    difference_values-IsSetValue s t (if not (member x t) then insert x r else r)
      (ground (arith, insert-IsSetValue x r h))

difference-AreSetValue : (o p : Option Data) → AreSetValue (difference o p)
unfolding difference
difference-AreSetValue none p = tt
difference-AreSetValue (some _) none = tt
difference-AreSetValue (some (set_t s)) (some (set_t t)) = difference_values-IsSetValue s t [] tt
difference-AreSetValue (some _) (some _) = tt

module _ (now : ℤ) (dest : Text) {db : Database} (v : IsValid db) where
  pub set_union_into-IsValid : (ks : List Text) → IsValid (set_union_into now dest ks db).1
  unfolding set_union_into
  set_union_into-IsValid ks =
      store_result-IsValid dest (union_sets (collect_union ks (refresh_all now ks db).m_data))
        (union_sets-AreSetValue (collect_union ks (refresh_all now ks db).m_data))
        (refresh_all-IsValid now ks v)

  pub set_intersection_into-IsValid :
      (ks : List Text) → IsValid (set_intersection_into now dest ks db).1
  unfolding set_intersection_into
  set_intersection_into-IsValid ks =
      let c = collect_intersection ks (refresh_all now ks db).m_data in
      store_result-IsValid dest (intersect c) (intersect-AreSetValue c)
        (refresh_all-IsValid now ks v)

  pub set_difference_into-IsValid :
      (key1 key2 : Text) → IsValid (set_difference_into now dest key1 key2 db).1
  unfolding set_difference_into
  set_difference_into-IsValid key1 key2 =
      let db' = refresh now key2 (refresh now key1 db) in
      store_result-IsValid dest (difference (find key1 db'.m_data) (find key2 db'.m_data))
        (difference-AreSetValue (find key1 db'.m_data) (find key2 db'.m_data))
        (erase_if_expired-IsValid now key2 (erase_if_expired-IsValid now key1 v))

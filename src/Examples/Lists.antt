-- ===== src/Examples/Lists.antt =====
-- The operations on lists.
use vanity.Base.{pos, negsuc, ◌≡◌, refl, some, ok, [], ◌∷◌, take, drop}
use vanity.Std.Text.{text_eq}
use vanity.Std.Map.{find}
use vanity.Database.Expiry.{refresh, erase_if_expired, is_expired}
use vanity.Database.ListDatabase.{
  list_get, list_pop_left, list_pop_right, list_push_right, is_invalid_range, store_list,
}
use vanity.Database.ListDatabase.Access.{
  element, or_out_of_range, list_get-element, list_at, popped, list_pop_left_lem,
  pop_right-push_right,
}
use vanity.Database.ListDatabase.Ranges.{list_range, list_trim, list_remove, answer}
use vanity.Database.ListDatabase.RangeLaws.{
  range_of, trimmed_to, list_range_lem, list_trim-list_range,
}
use vanity.Database.ListDatabase.RemoveLaws.{Removed, asked, count, list_remove_lem}
use vanity.Examples.{a, b, c, key_l, letters, stock, early}

list_get_example :
    (list_get early key_l (negsuc 1) stock).0 ≡ or_out_of_range (element letters (negsuc 1))
unfolding find erase_if_expired is_expired text_eq
list_get_example = list_get-element early key_l (negsuc 1) letters stock refl

list_pop_left_example :
    ((list_pop_left early key_l (pos 2) stock).0 ≡ ok (take (popped letters (pos 2)) letters))
    × (list_at key_l (list_pop_left early key_l (pos 2) stock).1
        ≡ some (drop (popped letters (pos 2)) letters))
unfolding find erase_if_expired is_expired text_eq
list_pop_left_example = list_pop_left_lem early key_l letters stock (pos 2) refl

push_pop_example :
    ((list_pop_right early key_l (pos 2) (list_push_right early key_l (b ∷ c ∷ []) stock).1).0
      ≡ ok (b ∷ c ∷ []))
    × (list_at key_l
          (list_pop_right early key_l (pos 2) (list_push_right early key_l (b ∷ c ∷ []) stock).1).1
        ≡ some letters)
unfolding find erase_if_expired is_expired text_eq
push_pop_example = pop_right-push_right early key_l letters b (c ∷ []) stock refl

-- A range from the second element to the last but two, which lies before it.
list_range_example :
    list_range early key_l (pos 2) (negsuc 2) stock
    ≡ answer (λ r. (ok r, refresh early key_l stock)) (range_of letters (pos 2) (negsuc 2))
unfolding find erase_if_expired is_expired text_eq
list_range_example = list_range_lem early key_l (pos 2) (negsuc 2) letters stock refl

list_trim_example :
    list_trim early key_l (pos 1) (negsuc 0) stock
    ≡ trimmed_to key_l letters (list_range early key_l (pos 1) (negsuc 0) stock)
unfolding find erase_if_expired is_expired text_eq is_invalid_range
list_trim_example = list_trim-list_range early key_l (pos 1) (negsuc 0) letters stock refl refl

list_remove_example : Removed a (pos 1) letters (list_remove early key_l a (pos 1) stock) (λ kept.
    (ok (asked (pos 1) (count a letters)), store_list key_l kept (refresh early key_l stock)))
unfolding find erase_if_expired is_expired text_eq
list_remove_example = list_remove_lem early key_l a (pos 1) letters stock refl

-- ===== src/Database/ListDatabase/Ranges.antt =====
-- vanity/db/db/list_database.cpp: list_range, list_trim and list_remove. They walk between two
-- iterators or erase through them; `none` is a walk that leaves the list.
use vanity.Base.{
  ℕ, zero, suc, ◌-◌, ◌==◌, leb, ℤ, pos, neg_part, pos_part, ltb_ℤ, Option, none, some, List, [],
  ◌∷◌, ◌++◌, reverse, length, take, drop, ok, err, if◌then◌else◌,
}
use vanity.Std.Text.{Text, text_eq}
use vanity.Std.Map.{find}
use vanity.Operations.{Data, list_t}
use vanity.Database.{Database}
use vanity.Database.Expiry.{refresh}
use vanity.Database.ListDatabase.{
  Answer, not_list, iterator_pair_inclusive, is_invalid_range, store_list,
}

-- The elements from position `it` up to position `end_it`, where `it` comes first.
abbrev pub slice : ℕ → ℕ → List Text → List Text
slice it end_it l = take (end_it - it) (drop it l)

-- list_t{it, end_it} walks from `it` until it meets `end_it`, past the end of the list if
-- `end_it` lies before `it`.
unfoldable pub range_list : List Text → ℤ → ℤ → Option (List Text)
range_list l start end =
    if is_invalid_range start end
    then some []
    else let (it, end_it) = iterator_pair_inclusive l start end in
      if leb it end_it then some (slice it end_it l) else none

abbrev pub answer {ℓ} : {A B : Type ℓ} → (A → B) → Option A → Option B
answer f none = none
answer f (some a) = some (f a)

unfoldable pub range_found : Option Data → ℤ → ℤ → Option (Answer (List Text))
unfolding range_list
range_found none start end = some (ok [])
range_found (some (list_t l)) start end = answer ok (range_list l start end)
range_found (some _) start end = some (err not_list)

unfoldable pub list_range : ℤ → Text → ℤ → ℤ → Database → Option (Answer (List Text) × Database)
unfolding range_found
list_range now key start end db =
    let db' = refresh now key db in
    answer (λ r. (r, db')) (range_found (find key db'.m_data) start end)

-- list.erase of the elements from position `it` up to position `end_it`
abbrev pub erase_range : ℕ → ℕ → List Text → List Text
erase_range it end_it l = take it l ++ drop end_it l

-- erase(begin(), it), then erase(end_it, end()), where `end_it` has moved with the first erasure
unfoldable pub trimmed : ℕ → ℕ → List Text → List Text
trimmed it end_it l = let rest = erase_range 0 it l in erase_range (end_it - it) (length rest) rest

-- The second erasure is undefined if the first has reached behind `end_it`.
unfoldable pub trim_list : List Text → Text → ℤ → ℤ → Database → Option (Answer ℕ × Database)
trim_list l key start end db =
    if is_invalid_range start end
    then some (ok 0, db)
    else let (it, end_it) = iterator_pair_inclusive l start end in
      if leb it end_it
      then (let kept = trimmed it end_it l in
          some (ok (length l - length kept), store_list key kept db))
      else none

unfoldable pub trim_found : Option Data → Text → ℤ → ℤ → Database → Option (Answer ℕ × Database)
unfolding trim_list
trim_found none key start end db = some (ok 0, db)
trim_found (some (list_t l)) key start end db = trim_list l key start end db
trim_found (some _) key start end db = some (err not_list, db)

unfoldable pub list_trim : ℤ → Text → ℤ → ℤ → Database → Option (Answer ℕ × Database)
unfolding trim_found
list_trim now key start end db =
    let db' = refresh now key db in trim_found (find key db'.m_data) key start end db'

-- The loop from the front, which erases up to `n` occurrences.
unfoldable pub remove_front : Text → ℕ → List Text → List Text
remove_front x zero l = l
remove_front x (suc n) [] = []
remove_front x (suc n) (y ∷ l) =
    let found = remove_front x n l in
    let other = y ∷ remove_front x (suc n) l in if text_eq y x then found else other

-- The loop from the back, on the reversed list. `rend()` was taken before the loop and names the
-- first element: if that element is erased and the loop goes on, it reads before the list.
unfoldable pub remove_back : Text → ℕ → List Text → Option (List Text)
remove_back x zero r = some r
remove_back x (suc n) [] = some []
remove_back x (suc n) (y ∷ []) =
    if text_eq y x then (if n == 0 then some [] else none) else some (y ∷ [])
remove_back x (suc n) (y ∷ z ∷ r) =
    let found = remove_back x n (z ∷ r) in
    let other = answer (λ l. y ∷ l) (remove_back x (suc n) (z ∷ r)) in
    if text_eq y x then found else other

-- The loop for a count of 0, which erases every occurrence.
unfoldable pub remove_every : Text → List Text → List Text
remove_every x [] = []
remove_every x (y ∷ l) = let rest = remove_every x l in if text_eq y x then rest else y ∷ rest

unfoldable pub remove_list : Text → ℤ → List Text → Option (List Text)
unfolding remove_front remove_back remove_every
remove_list x count l =
    if ltb_ℤ (pos 0) count
    then some (remove_front x (pos_part count) l)
    else if ltb_ℤ count (pos 0)
    then answer reverse (remove_back x (neg_part count) (reverse l))
    else some (remove_every x l)

unfoldable pub remove_found :
    Option Data → Text → Text → ℤ → Database → Option (Answer ℕ × Database)
unfolding remove_list store_list
remove_found none key x count db = some (ok 0, db)
remove_found (some (list_t l)) key x count db =
    answer (λ kept. (ok (length l - length kept), store_list key kept db)) (remove_list x count l)
remove_found (some _) key x count db = some (err not_list, db)

unfoldable pub list_remove : ℤ → Text → Text → ℤ → Database → Option (Answer ℕ × Database)
unfolding remove_found
list_remove now key x count db =
    let db' = refresh now key db in remove_found (find key db'.m_data) key x count db'

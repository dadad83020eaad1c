-- ===== src/Database/ListDatabase.antt =====
-- vanity/db/db/list_database.cpp. An iterator is its position, from 0 to the length, which is
-- end(); `none` stands for a run that the C++ standard leaves undefined.
pub mod Ranges
pub mod Access
pub mod RangeLaws
pub mod RemoveLaws
pub mod Valid
use vanity.Base.{
  ℕ, zero, suc, ◌+◌, ◌-◌, ◌==◌, ltb, ℤ, pos, pos_part, neg_part, ltb_ℤ, ◌+ℤ◌, ◌-ℤ◌, Bool, true,
  false, not, ◌&&◌, ◌||◌, Option, none, some, List, [], ◌∷◌, ◌++◌, reverse, length, get_elem?, set,
  take, drop, Result, ok, err, if◌then◌else◌,
}
use vanity.Std.Text.{Text, text_eq}
use vanity.Std.Map.{find}
use vanity.Operations.{Data, list_t}
use vanity.Database.{Database, put}
use vanity.Database.Expiry.{refresh, expiry_aware_del}

pub data ListErrorKind : Type 0 where
  not_list out_of_range : ListErrorKind

abbrev pub Answer : Type 0 → Type 0
Answer A = Result ListErrorKind A

-- iterator_or_end, and the distance from rbegin() of reverse_iterator_or_rend
unfoldable pub iterator_or_end : List Text → ℤ → ℕ
unfolding ◌+ℤ◌ ◌-ℤ◌
iterator_or_end l index =
    let size = pos (length l) in
    if not (ltb_ℤ index size) || ltb_ℤ index (pos 0 -ℤ size)
    then length l
    else pos_part (if ltb_ℤ index (pos 0) then index +ℤ size else index)

abbrev pub reverse_iterator_or_rend : List Text → ℤ → ℕ
unfolding iterator_or_end
reverse_iterator_or_rend l index = iterator_or_end l index

abbrev pub start_iterator : List Text → ℤ → ℕ
start_iterator l start =
    let it = iterator_or_end l start in if it == length l && ltb_ℤ start (pos 0) then 0 else it

abbrev pub end_iterator : List Text → ℤ → ℕ
end_iterator l end =
    let it = iterator_or_end l end in
    if it == length l && ltb_ℤ end (pos 0) then 0 else if not (it == length l) then it + 1 else it

unfoldable pub iterator_pair_inclusive : List Text → ℤ → ℤ → ℕ × ℕ
unfolding iterator_or_end
iterator_pair_inclusive l start end = (start_iterator l start, end_iterator l end)

unfoldable pub is_invalid_range : ℤ → ℤ → Bool
is_invalid_range start end =
    (ltb_ℤ (pos 0) start && ltb_ℤ (pos 0) end && ltb_ℤ end start)
    || (ltb_ℤ start (pos 0) && ltb_ℤ end (pos 0) && ltb_ℤ end start)

-- A list that holds at least one element is kept, an empty one is deleted.
unfoldable pub store_list : Text → List Text → Database → Database
unfolding expiry_aware_del
store_list key [] db = (expiry_aware_del key (put key (list_t []) db)).1
store_list key (x ∷ l) db = put key (list_t (x ∷ l)) db

abbrev pub len_found : Option Data → Answer ℕ
len_found none = ok 0
len_found (some (list_t l)) = ok (length l)
len_found (some _) = err not_list

unfoldable pub list_len : ℤ → Text → Database → Answer ℕ × Database
list_len now key db = let db' = refresh now key db in (len_found (find key db'.m_data), db')

-- iterator_or_error, as the element that the iterator stands at
unfoldable pub get_found : Option Data → ℤ → Answer Text
unfolding iterator_or_end
get_found none index = err out_of_range
get_found (some (list_t l)) index = elim (get_elem? l (iterator_or_end l index)) [
  | none ↦ err out_of_range
  | some x ↦ ok x
]
get_found (some _) index = err not_list

-- erase_if_expired is called by list_get, and again by iterator_or_error
unfoldable pub list_get : ℤ → Text → ℤ → Database → Answer Text × Database
unfolding get_found
list_get now key index db =
    let db' = refresh now key (refresh now key db) in (get_found (find key db'.m_data) index, db')

-- std::swap(*it, value), where the iterator stands at an element
unfoldable pub set_element :
    Option Text → List Text → ℕ → Text → Text → Database → Answer Text × Database
set_element none l i key value db = (err out_of_range, db)
set_element (some x) l i key value db = (ok x, put key (list_t (set l i value)) db)

unfoldable pub set_found : Option Data → Text → ℤ → Text → Database → Answer Text × Database
unfolding set_element iterator_or_end
set_found none key index value db = (err out_of_range, db)
set_found (some (list_t l)) key index value db =
    let it = iterator_or_end l index in set_element (get_elem? l it) l it key value db
set_found (some _) key index value db = (err not_list, db)

unfoldable pub list_set : ℤ → Text → ℤ → Text → Database → Answer Text × Database
unfolding set_found
list_set now key index value db =
    let db' = refresh now key (refresh now key db) in
    set_found (find key db'.m_data) key index value db'

-- The two push operations, by the list that they make of the old one and the values. A key that is
-- not there gets an empty list first.
unfoldable pub push_found :
    (List Text → List Text) → Option Data → Text → Database → Answer ℕ × Database
push_found join none key db =
    (ok (length (join [])), put key (list_t (join [])) (put key (list_t []) db))
push_found join (some (list_t l)) key db = (ok (length (join l)), put key (list_t (join l)) db)
push_found join (some _) key db = (err not_list, db)

unfoldable pub list_push_left : ℤ → Text → List Text → Database → Answer ℕ × Database
unfolding push_found
list_push_left now key [] db = (ok 0, refresh now key db)
list_push_left now key (x ∷ xs) db =
    let db' = refresh now key db in
    push_found (λ l. reverse (x ∷ xs) ++ l) (find key db'.m_data) key db'

unfoldable pub list_push_right : ℤ → Text → List Text → Database → Answer ℕ × Database
unfolding push_found
list_push_right now key [] db = (ok 0, refresh now key db)
list_push_right now key (x ∷ xs) db =
    let db' = refresh now key db in push_found (λ l. l ++ x ∷ xs) (find key db'.m_data) key db'

-- list_pop_left on the list that it found
unfoldable pub pop_left_list : List Text → Text → ℤ → Database → Answer (List Text) × Database
unfolding iterator_or_end store_list
pop_left_list l key n db =
    let it = iterator_or_end l n in
    if it == length l && ltb_ℤ n (pos 0)
    then (ok [], db)
    else (ok (take it l), store_list key (drop it l) db)

unfoldable pub pop_left_found : Option Data → Text → ℤ → Database → Answer (List Text) × Database
unfolding pop_left_list
pop_left_found none key n db = (ok [], db)
pop_left_found (some (list_t l)) key n db = pop_left_list l key n db
pop_left_found (some _) key n db = (err not_list, db)

unfoldable pub list_pop_left : ℤ → Text → ℤ → Database → Answer (List Text) × Database
unfolding pop_left_found
list_pop_left now key n db =
    let db' = refresh now key db in pop_left_found (find key db'.m_data) key n db'

-- The position of rit.base() is counted from the end.
unfoldable pub pop_right_list : List Text → Text → ℤ → Database → Answer (List Text) × Database
unfolding iterator_or_end store_list
pop_right_list l key n db =
    let rit = reverse_iterator_or_rend l n in
    if rit == length l && ltb_ℤ n (pos 0)
    then (ok [], db)
    else (ok (drop (length l - rit) l), store_list key (take (length l - rit) l) db)

unfoldable pub pop_right_found : Option Data → Text → ℤ → Database → Answer (List Text) × Database
unfolding pop_right_list
pop_right_found none key n db = (ok [], db)
pop_right_found (some (list_t l)) key n db = pop_right_list l key n db
pop_right_found (some _) key n db = (err not_list, db)

unfoldable pub list_pop_right : ℤ → Text → ℤ → Database → Answer (List Text) × Database
unfolding pop_right_found
list_pop_right now key n db =
    let db' = refresh now key db in pop_right_found (find key db'.m_data) key n db'

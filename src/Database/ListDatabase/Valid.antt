-- ===== src/Database/ListDatabase/Valid.antt =====
-- The list operations keep a database valid: no list that is stored is ever empty.
use vanity.Base.{
  ℕ, zero, suc, ◌-◌, ℤ, Option, none, some, List, [], ◌∷◌, ◌++◌, reverse, length, take, drop,
  get_elem?, set, arith, ok,
}
use vanity.Std.Text.{Text}
use vanity.Std.Map.{find, find-assign, find-erase}
use vanity.Operations.{Data, list_t}
use vanity.Database.{Database, IsStorable, IsValid, put}
use vanity.Database.Expiry.{refresh, expiry_aware_del}
use vanity.Database.Expiry.Laws.{put-IsValid, erase_if_expired-IsValid}
use vanity.Database.Valid.{StorableAt, find-StorableAt, Keeps}
use mathlib.Core.List.{reverse-append, append_assoc}
use vanity.Database.ListDatabase.{
  Answer, iterator_pair_inclusive, set_element, iterator_or_end, store_list, set_found, list_set,
  push_found, list_push_left, list_push_right, pop_left_found, list_pop_left, pop_right_found,
  list_pop_right,
}
use vanity.Database.ListDatabase.Ranges.{
  trim_found, list_trim, remove_list, trimmed, remove_found, list_remove, answer,
}

module _ (key : Text) {db : Database} (v : IsValid db) where
  -- A value that is overwritten at once does not matter.
  pub put-put-IsValid : (c d : Data) → IsStorable d → IsValid (put key d (put key c db))
  put-put-IsValid c d s = record {
    timed = λ k h. ground (
      arith,
      find-assign key k c db.m_data,
      find-assign key k d (put key c db).m_data,
      v.timed k h,
    );
    stored = λ k x h. ground (
      arith,
      find-assign key k c db.m_data,
      find-assign key k d (put key c db).m_data,
      v.stored k x,
    );
  }

  -- Nor does a value that is deleted at once.
  pub put_del-IsValid : (d : Data) → IsValid (expiry_aware_del key (put key d db)).1
  unfolding expiry_aware_del
  put_del-IsValid d = record {
    timed = λ k h. ground (
      arith,
      find-assign key k d db.m_data,
      find-erase key k db.m_expiry_times,
      find-erase key k (put key d db).m_data,
      v.timed k,
    );
    stored = λ k x h. ground (
      arith,
      find-assign key k d db.m_data,
      find-erase key k (put key d db).m_data,
      v.stored k x,
    );
  }

  pub store_list-IsValid : (l : List Text) → IsValid (store_list key l db)
  unfolding store_list
  store_list-IsValid [] = put_del-IsValid (list_t [])
  store_list-IsValid (x ∷ l) = put-IsValid key v (list_t (x ∷ l)) tt

  set-IsStorable :
      (l : List Text) (i : ℕ) (x : Text) → IsStorable (list_t l) → IsStorable (list_t (set l i x))
  set-IsStorable [] i x h = h
  set-IsStorable (y ∷ l) zero x h = tt
  set-IsStorable (y ∷ l) (suc i) x h = tt

  set_element-IsValid :
      (o : Option Text) (l : List Text) (i : ℕ) (x : Text)
      → IsStorable (list_t l)
      → IsValid (set_element o l i key x db).1
  unfolding set_element
  set_element-IsValid none l i x s = v
  set_element-IsValid (some y) l i x s =
      put-IsValid key v (list_t (set l i x)) (set-IsStorable l i x s)

  set_found-IsValid :
      (o : Option Data) (index : ℤ) (x : Text)
      → StorableAt o
      → IsValid (set_found o key index x db).1
  unfolding set_found
  set_found-IsValid none index x s = v
  set_found-IsValid (some (list_t l)) index x s =
      let it = iterator_or_end l index in set_element-IsValid (get_elem? l it) l it x s
  set_found-IsValid (some _) index x s = v

  push_found-IsValid :
      (join : List Text → List Text) (o : Option Data)
      → ((l : List Text) → IsStorable (list_t (join l)))
      → IsValid (push_found join o key db).1
  unfolding push_found
  push_found-IsValid join none s = put-put-IsValid (list_t []) (list_t (join [])) (s [])
  push_found-IsValid join (some (list_t l)) s = put-IsValid key v (list_t (join l)) (s l)
  push_found-IsValid join (some _) s = v

  pop_left_found-IsValid : (o : Option Data) (n : ℤ) → IsValid (pop_left_found o key n db).1
  unfolding pop_left_found
  pop_left_found-IsValid none n = v
  pop_left_found-IsValid (some (list_t l)) n =
      ground (arith, store_list-IsValid (drop (iterator_or_end l n) l))
  pop_left_found-IsValid (some _) n = v

  pop_right_found-IsValid : (o : Option Data) (n : ℤ) → IsValid (pop_right_found o key n db).1
  unfolding pop_right_found
  pop_right_found-IsValid none n = v
  pop_right_found-IsValid (some (list_t l)) n =
      ground (arith, store_list-IsValid (take (length l - iterator_or_end l n) l))
  pop_right_found-IsValid (some _) n = v

  trim_found-Keeps : (o : Option Data) (start end : ℤ) → Keeps (trim_found o key start end db)
  unfolding trim_found
  trim_found-Keeps none start end = v
  trim_found-Keeps (some (list_t l)) start end =
      let (it, end_it) = iterator_pair_inclusive l start end in
      ground (arith, store_list-IsValid (trimmed it end_it l))
  trim_found-Keeps (some _) start end = v

  kept-Keeps :
      (o : Option (List Text)) (n : ℕ)
      → Keeps (
          answer {B = Answer ℕ × Database}
            (λ kept. (ok (n - length kept), store_list key kept db))
            o)
  kept-Keeps none n = tt
  kept-Keeps (some l) n = store_list-IsValid l

  remove_found-Keeps :
      (o : Option Data) (x : Text) (count : ℤ) → Keeps (remove_found o key x count db)
  unfolding remove_found
  remove_found-Keeps none x count = v
  remove_found-Keeps (some (list_t l)) x count = kept-Keeps (remove_list x count l) (length l)
  remove_found-Keeps (some _) x count = v

-- A list with something put before or after it is not empty.
append_cons-IsStorable : (l r : List Text) (x : Text) → IsStorable (list_t (l ++ x ∷ r))
append_cons-IsStorable [] r x = tt
append_cons-IsStorable (y ∷ l) r x = tt

reverse_append-IsStorable :
    (x : Text) (xs l : List Text) → IsStorable (list_t (reverse (x ∷ xs) ++ l))
reverse_append-IsStorable x xs l =
    rw (reverse-append (x ∷ []) xs, append_assoc) (append_cons-IsStorable (reverse xs) l x)

module _ (now : ℤ) (key : Text) {db : Database} (v : IsValid db) where
  pub list_set-IsValid : (index : ℤ) (x : Text) → IsValid (list_set now key index x db).1
  unfolding list_set
  list_set-IsValid index x =
      let v' = erase_if_expired-IsValid now key (erase_if_expired-IsValid now key v) in
      set_found-IsValid key v' (find key (refresh now key (refresh now key db)).m_data) index x
        (find-StorableAt v' key)

  pub list_push_left-IsValid : (xs : List Text) → IsValid (list_push_left now key xs db).1
  unfolding list_push_left
  list_push_left-IsValid [] = erase_if_expired-IsValid now key v
  list_push_left-IsValid (x ∷ xs) =
      push_found-IsValid key (erase_if_expired-IsValid now key v) (λ l. reverse (x ∷ xs) ++ l)
        (find key (refresh now key db).m_data) (reverse_append-IsStorable x xs)

  pub list_push_right-IsValid : (xs : List Text) → IsValid (list_push_right now key xs db).1
  unfolding list_push_right
  list_push_right-IsValid [] = erase_if_expired-IsValid now key v
  list_push_right-IsValid (x ∷ xs) =
      push_found-IsValid key (erase_if_expired-IsValid now key v) (λ l. l ++ x ∷ xs)
        (find key (refresh now key db).m_data) (λ l. append_cons-IsStorable l xs x)

  pub list_pop_left-IsValid : (n : ℤ) → IsValid (list_pop_left now key n db).1
  unfolding list_pop_left
  list_pop_left-IsValid n =
      pop_left_found-IsValid key (erase_if_expired-IsValid now key v)
        (find key (refresh now key db).m_data) n

  pub list_pop_right-IsValid : (n : ℤ) → IsValid (list_pop_right now key n db).1
  unfolding list_pop_right
  list_pop_right-IsValid n =
      pop_right_found-IsValid key (erase_if_expired-IsValid now key v)
        (find key (refresh now key db).m_data) n

  pub list_trim-Keeps : (start end : ℤ) → Keeps (list_trim now key start end db)
  unfolding list_trim
  list_trim-Keeps start end =
      trim_found-Keeps key (erase_if_expired-IsValid now key v)
        (find key (refresh now key db).m_data) start end

  pub list_remove-Keeps : (x : Text) (count : ℤ) → Keeps (list_remove now key x count db)
  unfolding list_remove
  list_remove-Keeps x count =
      remove_found-Keeps key (erase_if_expired-IsValid now key v)
        (find key (refresh now key db).m_data) x count

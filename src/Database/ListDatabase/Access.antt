-- ===== src/Database/ListDatabase/Access.antt =====
-- Indices, and the two ends of a list: list_get, the pushes and the pops.
use vanity.Base.{
  ℕ, suc, ◌-◌, ◌≤◌, ltb, ℤ, pos, negsuc, ◌≡◌, ap, ◌∙◌, Option, none, some, List, [], ◌∷◌, ◌++◌,
  arith, length, length-append, reverse, get_elem?, get_elem?-past, get_elem?-reverse, take, drop,
  take_all, drop_all, drop-append, take-append, ok, err, if◌then◌else◌,
}
use vanity.Std.Text.{Text}
use vanity.Std.Map
use vanity.Std.Map.{find, find-assign_self, find-erase_self}
use vanity.Operations.{Data, list_t}
use vanity.Database.{Database, put}
use vanity.Database.Expiry.{refresh}
use vanity.Database.Expiry.Laws.{refresh_idem, refresh-put}
use vanity.Database.ListDatabase.{
  Answer, out_of_range, iterator_or_end, get_found, list_get, store_list, pop_left_list,
  pop_right_list, push_found, list_push_right, list_pop_left, list_pop_right, pop_left_found,
  pop_right_found,
}

-- A non-negative index counts from the front, a negative one from the back.
pub iterator_or_end-pos :
    (l : List Text) (n : ℕ) → iterator_or_end l (pos n) ≡ (if ltb n (length l) then n else length l)
unfolding iterator_or_end
iterator_or_end-pos l n = ground arith

pub iterator_or_end-negsuc :
    (l : List Text) (n : ℕ)
    → iterator_or_end l (negsuc n) ≡ (if ltb n (length l) then length l - suc n else length l)
unfolding iterator_or_end
iterator_or_end-negsuc l n = ground arith

-- The element at an index, read from the front or from the back.
abbrev pub element : List Text → ℤ → Option Text
element l (pos n) = get_elem? l n
element l (negsuc n) = get_elem? (reverse l) n

abbrev pub or_out_of_range : Option Text → Answer Text
or_out_of_range none = err out_of_range
or_out_of_range (some x) = ok x

iterator-element : (l : List Text) (i : ℤ) → get_elem? l (iterator_or_end l i) ≡ element l i
iterator-element l (pos n) =
    ground (arith, iterator_or_end-pos l n, get_elem?-past l n, get_elem?-past l (length l))
iterator-element l (negsuc n) =
    ground (arith, iterator_or_end-negsuc l n, get_elem?-reverse l n, get_elem?-past l (length l))

get_found-element :
    (l : List Text) (i : ℤ) → get_found (some (list_t l)) i ≡ or_out_of_range (element l i)
unfolding get_found
get_found-element l i = ground (arith, iterator-element l i)

-- LIST_GET of a key that holds a list answers with the element at the index, counted from the front
-- if the index is not negative and from the back if it is, or that the index is out of range.
pub list_get-element :
    (now : ℤ) (key : Text) (index : ℤ) (l : List Text) (db : Database)
    → find key (refresh now key db).m_data ≡ some (list_t l)
    → (list_get now key index db).0 ≡ or_out_of_range (element l index)
unfolding list_get
list_get-element now key index l db h =
    rw (refresh_idem now key db) (rw h (get_found-element l index))

-- The list that a key holds, where no list is stored for the empty one.
abbrev pub held : Option Data → Option (List Text)
held none = some []
held (some (list_t l)) = some l
held (some _) = none

abbrev pub list_at : Text → Database → Option (List Text)
list_at key db = held (find key db.m_data)

pub list_at-store_list :
    (key : Text) (l : List Text) (db : Database) → list_at key (store_list key l db) ≡ some l
unfolding store_list
list_at-store_list key [] db = ap held (find-erase_self key (Map.assign key (list_t []) db.m_data))
list_at-store_list key (x ∷ l) db = ap held (find-assign_self key (list_t (x ∷ l)) db.m_data)

-- How many elements a pop asks for: a negative count leaves that many less one.
abbrev pub popped : List Text → ℤ → ℕ
popped l (pos n) = n
popped l (negsuc n) = length l - suc n

module _ (key : Text) (l : List Text) (db : Database) (h : list_at key db ≡ some l) where
  pop_left_list_lem :
      (n : ℤ)
      → ((pop_left_list l key n db).0 ≡ ok (take (popped l n) l))
        × (list_at key (pop_left_list l key n db).1 ≡ some (drop (popped l n) l))
  unfolding pop_left_list
  pop_left_list_lem (pos n) = ground (
    arith,
    iterator_or_end-pos l n,
    take_all n l,
    drop_all n l,
    take_all (length l) l,
    drop_all (length l) l,
    list_at-store_list key (drop n l) db,
    list_at-store_list key (drop (length l) l) db,
  )
  pop_left_list_lem (negsuc n) =
      ground
        (arith, iterator_or_end-negsuc l n, list_at-store_list key (drop (length l - suc n) l) db)

  pop_right_list_lem :
      (n : ℤ)
      → ((pop_right_list l key n db).0 ≡ ok (drop (length l - popped l n) l))
        × (list_at key (pop_right_list l key n db).1 ≡ some (take (length l - popped l n) l))
  unfolding pop_right_list
  pop_right_list_lem (pos n) =
      let same : (m : ℕ) → length l ≤ m → length l - length l ≡ length l - m = λ m g. omega arith in
      ground (
        arith,
        iterator_or_end-pos l n,
        same n,
        list_at-store_list key (take (length l - n) l) db,
        list_at-store_list key (take (length l - length l) l) db,
      )
  pop_right_list_lem (negsuc n) = ground (
    arith,
    iterator_or_end-negsuc l n,
    take_all (length l - 0) l,
    drop_all (length l - 0) l,
    take_all (length l - (length l - suc n)) l,
    drop_all (length l - (length l - suc n)) l,
    list_at-store_list key (take (length l - (length l - suc n)) l) db,
  )

module _ (now : ℤ) (key : Text) (l : List Text) (db : Database) where
  -- LIST_POP_LEFT of a list answers with the elements that the count asks for, or with all of them
  -- if there are fewer, and leaves the others, in order; a negative count counts from the end, and
  -- takes nothing beyond it.
  pub list_pop_left_lem :
      (n : ℤ)
      → find key (refresh now key db).m_data ≡ some (list_t l)
      → ((list_pop_left now key n db).0 ≡ ok (take (popped l n) l))
        × (list_at key (list_pop_left now key n db).1 ≡ some (drop (popped l n) l))
  unfolding list_pop_left
  list_pop_left_lem n h =
      rw (h, pop_left_found) (pop_left_list_lem key l (refresh now key db) (ap held h) n)

  -- LIST_POP_RIGHT does the same at the other end, and answers in the order of the list.
  pub list_pop_right_lem :
      (n : ℤ)
      → find key (refresh now key db).m_data ≡ some (list_t l)
      → ((list_pop_right now key n db).0 ≡ ok (drop (length l - popped l n) l))
        × (list_at key (list_pop_right now key n db).1 ≡ some (take (length l - popped l n) l))
  unfolding list_pop_right
  list_pop_right_lem n h =
      rw (h, pop_right_found) (pop_right_list_lem key l (refresh now key db) (ap held h) n)

  pushed_right :
      (x : Text) (xs : List Text)
      → find key (refresh now key db).m_data ≡ some (list_t l)
      → list_push_right now key (x ∷ xs) db
        ≡ (ok (length (l ++ x ∷ xs)), put key (list_t (l ++ x ∷ xs)) (refresh now key db))
  unfolding list_push_right
  pushed_right x xs h = rw (h, push_found)

-- Popping what an append put at the end.
pop_right-append :
    (now : ℤ) (key : Text) (l ys : List Text) (db : Database)
    → find key (refresh now key db).m_data ≡ some (list_t (l ++ ys))
    → ((list_pop_right now key (pos (length ys)) db).0 ≡ ok ys)
      × (list_at key (list_pop_right now key (pos (length ys)) db).1 ≡ some l)
pop_right-append now key l ys db h =
    let (answer, left) = list_pop_right_lem now key (l ++ ys) db (pos (length ys)) h in
    let kept : length (l ++ ys) - length ys ≡ length l = omega (arith, length-append l ys) in
    (
      answer ∙ ap (λ (z : List Text). ok z) (rw kept (drop-append l ys)),
      left ∙ ap some (rw kept (take-append l ys)),
    )

-- Elements pushed to the right of a list come back by popping as many from the right, and the list
-- is as it was.
pub pop_right-push_right :
    (now : ℤ) (key : Text) (l : List Text) (x : Text) (xs : List Text) (db : Database)
    → find key (refresh now key db).m_data ≡ some (list_t l)
    → ((list_pop_right now key (pos (length (x ∷ xs))) (list_push_right now key (x ∷ xs) db).1).0
        ≡ ok (x ∷ xs))
      × (list_at key
            (list_pop_right now key
              (pos (length (x ∷ xs)))
              (list_push_right now key (x ∷ xs) db).1).1
          ≡ some l)
pop_right-push_right now key l x xs db h =
    let d = put key (list_t (l ++ x ∷ xs)) (refresh now key db) in
    rw (pushed_right now key l db x xs h) (
      pop_right-append now key l (x ∷ xs) d (
        rw (refresh-put now key (list_t (l ++ x ∷ xs)) db)
          (find-assign_self key (list_t (l ++ x ∷ xs)) (refresh now key db).m_data)))

-- ===== src/Locked/Redo.antt =====
-- The redo of a logged operation, at a time when no key has expired: it does what the operation
-- did, whatever the clock says by then.
use vanity.Base.{
  ℤ, ◌≡◌, refl, Bool, Option, none, some, List, [], ◌∷◌, ◌++◌, reverse, length, err, ok,
}
use vanity.Std.Text.{Text}
use vanity.Std.Set.{Set}
use vanity.Std.Map.{Map, find}
use vanity.Operations.{Data, string_t, hash_t, WalEntry}
use vanity.Database.{Database, put}
use vanity.Database.General.{copy_to, move_to}
use vanity.Database.Primitive.{incr_int}
use vanity.Database.ListDatabase.{
  list_set, list_push_left, list_push_right, list_pop_left, list_pop_right,
}
use vanity.Database.ListDatabase.Ranges.{list_trim, list_remove}
use vanity.Database.SetDatabase.{set_add, set_discard, set_move}
use vanity.Database.SetDatabase.Algebra.{
  set_union, union_sets, collect_union, set_union_into, set_intersection, intersect,
  collect_intersection, set_intersection_into, set_difference, difference, set_difference_into,
}
use vanity.Database.HashDatabase.{
  hash_remove, remove_fields, erase_fields, hash_update, update_fields, store_hash, on_hash,
  not_hash,
}
use vanity.Locked.Quiet.{
  aside, on_pair, on_option, IsQuiet, refresh_quiet, refresh_all_quiet, copy_found-aside,
  move_found-aside, incr_int_found-aside,
}
use vanity.Locked.Quiet.Containers.{
  set_found-aside, push_found-aside, pop_left_found-aside, pop_right_found-aside, trim_found-aside,
  remove_found-aside, add_found-aside, discard_found-aside, set_move_found-aside,
  store_result-aside, remove_left-aside, store_hash-aside,
}

module _ (e : Bool) (w : List WalEntry) (k : Text) (db : Database) where
  remove_hash-aside :
      (o : Option Data) (ks : List Text)
      → on_hash
          (some (ok 0, aside e w db))
          (some (err not_hash, aside e w db))
          (λ h. remove_fields h k ks (aside e w db))
          o
        ≡ on_option
            (aside e w)
            (on_hash (some (ok 0, db)) (some (err not_hash, db)) (λ h. remove_fields h k ks db) o)
  unfolding remove_fields
  remove_hash-aside none ks = refl
  remove_hash-aside (some (hash_t h)) ks = remove_left-aside e w (erase_fields ks h) (length h) k db
  remove_hash-aside (some _) ks = refl

  update_hash-aside :
      (o : Option Data) (xs : Map Text)
      → on_hash
          (some (err not_hash, put k (string_t []) (aside e w db)))
          (some (err not_hash, aside e w db))
          (λ h. store_hash h k (update_fields xs h) (aside e w db))
          o
        ≡ on_option (aside e w) (
            on_hash
              (some (err not_hash, put k (string_t []) db))
              (some (err not_hash, db))
              (λ h. store_hash h k (update_fields xs h) db)
              o)
  update_hash-aside none xs = refl
  update_hash-aside (some (hash_t h)) xs = store_hash-aside e w h k (update_fields xs h) db
  update_hash-aside (some _) xs = refl

module _ (e : Bool) (w : List WalEntry) (now now' : ℤ) (db : Database) (q : IsQuiet now db)
    (q' : IsQuiet now' (aside e w db)) where
  pub copy_to-redo :
      (from to : Text)
      → copy_to now' from to (aside e w db) ≡ on_pair (aside e w) (copy_to now from to db)
  unfolding copy_to
  copy_to-redo from to =
      rw (refresh_quiet now' from (aside e w db) q', refresh_quiet now from db q)
        (copy_found-aside e w (find from db.m_data) from to db)

  pub move_to-redo :
      (from to : Text)
      → move_to now' from to (aside e w db) ≡ on_pair (aside e w) (move_to now from to db)
  unfolding move_to
  move_to-redo from to =
      rw (refresh_quiet now' from (aside e w db) q', refresh_quiet now from db q)
        (move_found-aside e w (find from db.m_data) from to db)

  pub incr_int-redo :
      (k : Text) (x : ℤ)
      → incr_int now' k x (aside e w db) ≡ on_option (aside e w) (incr_int now k x db)
  unfolding incr_int
  incr_int-redo k x =
      rw (refresh_quiet now' k (aside e w db) q', refresh_quiet now k db q)
        (incr_int_found-aside e w (find k db.m_data) k x db)

  pub list_set-redo :
      (k : Text) (i : ℤ) (x : Text)
      → list_set now' k i x (aside e w db) ≡ on_pair (aside e w) (list_set now k i x db)
  unfolding list_set
  list_set-redo k i x =
      rw (refresh_quiet now' k (aside e w db) q', refresh_quiet now k db q)
        (rw (refresh_quiet now' k (aside e w db) q', refresh_quiet now k db q)
          (set_found-aside e w (find k db.m_data) k i x db))

  pub list_push_left-redo :
      (k : Text) (xs : List Text)
      → list_push_left now' k xs (aside e w db) ≡ on_pair (aside e w) (list_push_left now k xs db)
  unfolding list_push_left
  list_push_left-redo k [] = rw (refresh_quiet now' k (aside e w db) q', refresh_quiet now k db q)
  list_push_left-redo k (x ∷ xs) =
      rw (refresh_quiet now' k (aside e w db) q', refresh_quiet now k db q)
        (push_found-aside e w (λ l. reverse (x ∷ xs) ++ l) (find k db.m_data) k db)

  pub list_push_right-redo :
      (k : Text) (xs : List Text)
      → list_push_right now' k xs (aside e w db) ≡ on_pair (aside e w) (list_push_right now k xs db)
  unfolding list_push_right
  list_push_right-redo k [] = rw (refresh_quiet now' k (aside e w db) q', refresh_quiet now k db q)
  list_push_right-redo k (x ∷ xs) =
      rw (refresh_quiet now' k (aside e w db) q', refresh_quiet now k db q)
        (push_found-aside e w (λ l. l ++ x ∷ xs) (find k db.m_data) k db)

  pub list_pop_left-redo :
      (k : Text) (n : ℤ)
      → list_pop_left now' k n (aside e w db) ≡ on_pair (aside e w) (list_pop_left now k n db)
  unfolding list_pop_left
  list_pop_left-redo k n =
      rw (refresh_quiet now' k (aside e w db) q', refresh_quiet now k db q)
        (pop_left_found-aside e w (find k db.m_data) k n db)

  pub list_pop_right-redo :
      (k : Text) (n : ℤ)
      → list_pop_right now' k n (aside e w db) ≡ on_pair (aside e w) (list_pop_right now k n db)
  unfolding list_pop_right
  list_pop_right-redo k n =
      rw (refresh_quiet now' k (aside e w db) q', refresh_quiet now k db q)
        (pop_right_found-aside e w (find k db.m_data) k n db)

  pub list_trim-redo :
      (k : Text) (start end : ℤ)
      → list_trim now' k start end (aside e w db)
        ≡ on_option (aside e w) (list_trim now k start end db)
  unfolding list_trim
  list_trim-redo k start end =
      rw (refresh_quiet now' k (aside e w db) q', refresh_quiet now k db q)
        (trim_found-aside e w (find k db.m_data) k start end db)

  pub list_remove-redo :
      (k x : Text) (n : ℤ)
      → list_remove now' k x n (aside e w db) ≡ on_option (aside e w) (list_remove now k x n db)
  unfolding list_remove
  list_remove-redo k x n =
      rw (refresh_quiet now' k (aside e w db) q', refresh_quiet now k db q)
        (remove_found-aside e w (find k db.m_data) k x n db)

  pub set_add-redo :
      (k : Text) (xs : Set)
      → set_add now' k xs (aside e w db) ≡ on_pair (aside e w) (set_add now k xs db)
  unfolding set_add
  set_add-redo k [] = rw (refresh_quiet now' k (aside e w db) q', refresh_quiet now k db q)
  set_add-redo k (x ∷ xs) =
      rw (refresh_quiet now' k (aside e w db) q', refresh_quiet now k db q)
        (add_found-aside e w (find k db.m_data) k (x ∷ xs) db)

  pub set_discard-redo :
      (k : Text) (xs : Set)
      → set_discard now' k xs (aside e w db) ≡ on_option (aside e w) (set_discard now k xs db)
  unfolding set_discard
  set_discard-redo k xs =
      rw (refresh_quiet now' k (aside e w db) q', refresh_quiet now k db q)
        (discard_found-aside e w (find k db.m_data) k xs db)

  pub set_move-redo :
      (k j x : Text)
      → set_move now' k j x (aside e w db) ≡ on_pair (aside e w) (set_move now k j x db)
  unfolding set_move
  set_move-redo k j x =
      rw (refresh_quiet now' k (aside e w db) q', refresh_quiet now k db q)
        (rw (refresh_quiet now' j (aside e w db) q', refresh_quiet now j db q)
          (set_move_found-aside e w (find k db.m_data) k j x db))

  pub set_union_into-redo :
      (k : Text) (ks : List Text)
      → set_union_into now' k ks (aside e w db) ≡ on_pair (aside e w) (set_union_into now k ks db)
  unfolding set_union_into set_union
  set_union_into-redo k ks =
      rw (refresh_all_quiet now' ks (aside e w db) q', refresh_all_quiet now ks db q)
        (store_result-aside e w k (union_sets (collect_union ks db.m_data)) db)

  pub set_intersection_into-redo :
      (k : Text) (ks : List Text)
      → set_intersection_into now' k ks (aside e w db)
        ≡ on_pair (aside e w) (set_intersection_into now k ks db)
  unfolding set_intersection_into set_intersection
  set_intersection_into-redo k ks =
      rw (refresh_all_quiet now' ks (aside e w db) q', refresh_all_quiet now ks db q)
        (store_result-aside e w k (intersect (collect_intersection ks db.m_data)) db)

  pub set_difference_into-redo :
      (k i j : Text)
      → set_difference_into now' k i j (aside e w db)
        ≡ on_pair (aside e w) (set_difference_into now k i j db)
  unfolding set_difference_into set_difference
  set_difference_into-redo k i j =
      rw (refresh_quiet now' i (aside e w db) q', refresh_quiet now i db q)
        (rw (refresh_quiet now' j (aside e w db) q', refresh_quiet now j db q)
          (store_result-aside e w k (difference (find i db.m_data) (find j db.m_data)) db))

  pub hash_remove-redo :
      (k : Text) (ks : List Text)
      → hash_remove now' k ks (aside e w db) ≡ on_option (aside e w) (hash_remove now k ks db)
  unfolding hash_remove
  hash_remove-redo k ks =
      rw (refresh_quiet now' k (aside e w db) q', refresh_quiet now k db q)
        (remove_hash-aside e w k db (find k db.m_data) ks)

  pub hash_update-redo :
      (k : Text) (xs : Map Text)
      → hash_update now' k xs (aside e w db) ≡ on_option (aside e w) (hash_update now k xs db)
  unfolding hash_update
  hash_update-redo k xs =
      rw (refresh_quiet now' k (aside e w db) q', refresh_quiet now k db q)
        (update_hash-aside e w k db (find k db.m_data) xs)

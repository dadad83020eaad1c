-- ===== src/Locked/Quiet/Containers.antt =====
-- The writes of the list, set and hash operations, once they have looked up their keys, do not
-- depend on the flag that enables expiry or on the log.
use vanity.Base.{
  ℕ, ◌-◌, ℤ, ◌≡◌, refl, Bool, true, false, not, Option, none, some, List, [], ◌∷◌, arith, length,
  drop, take, reverse, get_elem?,
}
use vanity.Std.Text.{Text}
use vanity.Std.Set
use vanity.Std.Set.{Set, insert}
use vanity.Std.Map.{Map, find}
use vanity.Operations.{Data, list_t, set_t, WalEntry}
use vanity.Database.{Database, put}
use vanity.Database.ListDatabase
use vanity.Database.ListDatabase.{
  store_list, set_element, set_found, iterator_or_end, push_found, pop_left_found, pop_right_found,
  iterator_pair_inclusive, is_invalid_range,
}
use vanity.Database.ListDatabase.Ranges.{trim_found, remove_found, remove_list, trimmed, answer}
use vanity.Database.SetDatabase.{
  store_set, add_found, discard_left, discard_found, move_into, move_found,
}
use vanity.Database.SetDatabase.Algebra.{store_result}
use vanity.Database.HashDatabase.{remove_left, store_hash}
use vanity.Locked.Quiet.{aside, on_pair, on_option}

module _ (e : Bool) (w : List WalEntry) where
  store_list-aside :
      (k : Text) (l : List Text) (db : Database)
      → store_list k l (aside e w db) ≡ aside e w (store_list k l db)
  unfolding store_list
  store_list-aside k [] db = refl
  store_list-aside k (x ∷ l) db = refl

  set_element-aside :
      (o : Option Text) (l : List Text) (i : ℕ) (k x : Text) (db : Database)
      → set_element o l i k x (aside e w db) ≡ on_pair (aside e w) (set_element o l i k x db)
  unfolding set_element
  set_element-aside none l i k x db = refl
  set_element-aside (some y) l i k x db = refl

  pub set_found-aside :
      (o : Option Data) (k : Text) (i : ℤ) (x : Text) (db : Database)
      → set_found o k i x (aside e w db) ≡ on_pair (aside e w) (set_found o k i x db)
  unfolding set_found
  set_found-aside none k i x db = refl
  set_found-aside (some (list_t l)) k i x db =
      let it = iterator_or_end l i in set_element-aside (get_elem? l it) l it k x db
  set_found-aside (some _) k i x db = refl

  pub push_found-aside :
      (join : List Text → List Text) (o : Option Data) (k : Text) (db : Database)
      → push_found join o k (aside e w db) ≡ on_pair (aside e w) (push_found join o k db)
  unfolding push_found
  push_found-aside join none k db = refl
  push_found-aside join (some (list_t l)) k db = refl
  push_found-aside join (some _) k db = refl

  pub pop_left_found-aside :
      (o : Option Data) (k : Text) (n : ℤ) (db : Database)
      → pop_left_found o k n (aside e w db) ≡ on_pair (aside e w) (pop_left_found o k n db)
  unfolding pop_left_found
  pop_left_found-aside none k n db = refl
  pop_left_found-aside (some (list_t l)) k n db =
      ground (arith, store_list-aside k (drop (iterator_or_end l n) l) db)
  pop_left_found-aside (some _) k n db = refl

  pub pop_right_found-aside :
      (o : Option Data) (k : Text) (n : ℤ) (db : Database)
      → pop_right_found o k n (aside e w db) ≡ on_pair (aside e w) (pop_right_found o k n db)
  unfolding pop_right_found
  pop_right_found-aside none k n db = refl
  pop_right_found-aside (some (list_t l)) k n db =
      ground (arith, store_list-aside k (take (length l - iterator_or_end l n) l) db)
  pop_right_found-aside (some _) k n db = refl

  pub trim_found-aside :
      (o : Option Data) (k : Text) (start end : ℤ) (db : Database)
      → trim_found o k start end (aside e w db)
        ≡ on_option (aside e w) (trim_found o k start end db)
  unfolding trim_found
  trim_found-aside none k start end db = refl
  trim_found-aside (some (list_t l)) k start end db =
      let (it, end_it) = iterator_pair_inclusive l start end in
      ground (arith, store_list-aside k (trimmed it end_it l) db)
  trim_found-aside (some _) k start end db = refl

  kept-aside :
      (o : Option (List Text)) (n : ℕ) (k : Text) (db : Database)
      → answer {B = ListDatabase.Answer ℕ × Database}
          (λ l. (vanity.Base.ok (n - length l), store_list k l (aside e w db)))
          o
        ≡ on_option (aside e w) (answer (λ l. (vanity.Base.ok (n - length l), store_list k l db)) o)
  kept-aside none n k db = refl
  kept-aside (some l) n k db = rw (store_list-aside k l db)

  pub remove_found-aside :
      (o : Option Data) (k x : Text) (n : ℤ) (db : Database)
      → remove_found o k x n (aside e w db) ≡ on_option (aside e w) (remove_found o k x n db)
  unfolding remove_found
  remove_found-aside none k x n db = refl
  remove_found-aside (some (list_t l)) k x n db = kept-aside (remove_list x n l) (length l) k db
  remove_found-aside (some _) k x n db = refl

  store_set-aside :
      (k : Text) (s : Set) (db : Database)
      → store_set k s (aside e w db) ≡ aside e w (store_set k s db)
  unfolding store_set
  store_set-aside k [] db = refl
  store_set-aside k (x ∷ s) db = refl

  pub add_found-aside :
      (o : Option Data) (k : Text) (s : Set) (db : Database)
      → add_found o k s (aside e w db) ≡ on_pair (aside e w) (add_found o k s db)
  unfolding add_found
  add_found-aside none k s db = refl
  add_found-aside (some (set_t t)) k s db = refl
  add_found-aside (some _) k s db = refl

  discard_left-aside :
      (s : Set) (n : ℕ) (k : Text) (db : Database)
      → discard_left s n k (aside e w db) ≡ on_option (aside e w) (discard_left s n k db)
  unfolding discard_left
  discard_left-aside [] n k db = refl
  discard_left-aside (x ∷ s) n k db = refl

  pub discard_found-aside :
      (o : Option Data) (k : Text) (s : Set) (db : Database)
      → discard_found o k s (aside e w db) ≡ on_option (aside e w) (discard_found o k s db)
  unfolding discard_found
  discard_found-aside none k s db = refl
  discard_found-aside (some (set_t t)) k s db =
      discard_left-aside (Set.erase_all s t) (length t) k db
  discard_found-aside (some _) k s db = refl

  move_into-aside :
      (o : Option Data) (k j x : Text) (s : Set) (db : Database)
      → move_into o k j x s (aside e w db) ≡ on_pair (aside e w) (move_into o k j x s db)
  move_into-aside none k j x s db =
      ground (arith, store_set-aside k s (put j (set_t (insert x [])) db))
  move_into-aside (some (set_t t)) k j x s db =
      ground (arith, store_set-aside k s (put j (set_t (insert x t)) db))
  move_into-aside (some _) k j x s db = refl

  pub set_move_found-aside :
      (o : Option Data) (k j x : Text) (db : Database)
      → move_found o k j x (aside e w db) ≡ on_pair (aside e w) (move_found o k j x db)
  unfolding move_found
  set_move_found-aside none k j x db = refl
  set_move_found-aside (some (set_t s)) k j x db =
      ground (arith, move_into-aside (find j db.m_data) k j x (Set.erase x s) db)
  set_move_found-aside (some _) k j x db = refl

  pub store_result-aside :
      (k : Text) (o : Option Set) (db : Database)
      → store_result k (o, aside e w db) ≡ on_pair (aside e w) (store_result k (o, db))
  unfolding store_result
  store_result-aside k none db = refl
  store_result-aside k (some s) db = refl

  pub remove_left-aside :
      (h : Map Text) (n : ℕ) (k : Text) (db : Database)
      → remove_left h n k (aside e w db) ≡ on_option (aside e w) (remove_left h n k db)
  unfolding remove_left
  remove_left-aside [] n k db = refl
  remove_left-aside (f ∷ h) n k db = refl

  pub store_hash-aside :
      (h : Map Text) (k : Text) (o : Option (Map Text)) (db : Database)
      → store_hash h k o (aside e w db) ≡ on_option (aside e w) (store_hash h k o db)
  store_hash-aside h k none db = refl
  store_hash-aside h k (some h') db = refl

-- ===== src/Servers/Found.antt =====
-- vanity/db/db: what the methods of a database answer with for a value of another type, by what they found
-- at their key.
use vanity.Base.{
  ℕ, ℤ, ◌≡◌, refl, false, Option, none, some, List, [], ◌∷◌, ok, err, arith, length, ◌-◌,
}
use vanity.Std.Text.{Text}
use vanity.Std.Map.{Map}
use vanity.Std.Set
use vanity.Std.Set.{Set}
use vanity.Operations.{Data, int_t, float_t, list_t, set_t, hash_t}
use vanity.Database.{Database, Env}
use vanity.Database.ListDatabase
use vanity.Database.ListDatabase.{not_list, out_of_range}
use vanity.Database.HashDatabase
use vanity.Database.HashDatabase.{not_hash, bad_key}
use vanity.Database.ListDatabase.{
  store_list, list_len, list_get, list_set, list_push_left, list_push_right, list_pop_left,
  list_pop_right,
}
use vanity.Database.ListDatabase.Ranges.{
  range_found, range_list, trim_found, trim_list, remove_found, remove_list, answer,
}
use vanity.Database.SetDatabase
use vanity.Database.SetDatabase.{
  set_add, set_all, set_len, set_contains, set_remove, set_discard, set_or_empty, on_set, add_found,
  discard_found, discard_left,
}
use vanity.Database.HashDatabase.{
  field_or_bad_key, field_size, hash_all, hash_get, hash_contains, hash_len, hash_key_len,
  hash_remove, hash_keys, hash_values, hash_many_get, on_hash, remove_fields, remove_left,
  erase_fields,
}
use vanity.Database.Primitive.{incr_int_found, add_int, incr_float_found}
use vanity.Servers.Types.{
  is_int, is_float, is_list, is_set, is_hash, holds_other, is_not_list, is_not_there, is_not_hash,
}

pub field_or_bad_key-type : (o : Option Text) → is_not_hash (field_or_bad_key o) ≡ false
field_or_bad_key-type none = refl
field_or_bad_key-type (some v) = refl

pub field_size-type : (o : Option Text) → is_not_hash (field_size o) ≡ false
field_size-type none = refl
field_size-type (some v) = refl

pub len_found-type :
    (o : Option Data) → is_not_list (ListDatabase.len_found o) ≡ holds_other is_list o
len_found-type none = refl
len_found-type (some (list_t l)) = refl
len_found-type (some _) = refl

pub get_found-type :
    (o : Option Data) (i : ℤ) → is_not_list (ListDatabase.get_found o i) ≡ holds_other is_list o
unfolding ListDatabase.get_found
get_found-type none i = refl
get_found-type (some (list_t l)) i = ground arith
get_found-type (some _) i = refl

pub set_found-type :
    (o : Option Data) (key : Text) (i : ℤ) (v : Text) (db : Database)
    → is_not_list (ListDatabase.set_found o key i v db).0 ≡ holds_other is_list o
unfolding ListDatabase.set_found ListDatabase.set_element
set_found-type none key i v db = refl
set_found-type (some (list_t l)) key i v db = ground arith
set_found-type (some _) key i v db = refl

pub push_found-type :
    (join : List Text → List Text) (o : Option Data) (key : Text) (db : Database)
    → is_not_list (ListDatabase.push_found join o key db).0 ≡ holds_other is_list o
unfolding ListDatabase.push_found
push_found-type join none key db = refl
push_found-type join (some (list_t l)) key db = refl
push_found-type join (some _) key db = refl

pub pop_left_found-type :
    (o : Option Data) (key : Text) (n : ℤ) (db : Database)
    → is_not_list (ListDatabase.pop_left_found o key n db).0 ≡ holds_other is_list o
unfolding ListDatabase.pop_left_found ListDatabase.pop_left_list
pop_left_found-type none key n db = refl
pop_left_found-type (some (list_t l)) key n db = ground arith
pop_left_found-type (some _) key n db = refl

pub pop_right_found-type :
    (o : Option Data) (key : Text) (n : ℤ) (db : Database)
    → is_not_list (ListDatabase.pop_right_found o key n db).0 ≡ holds_other is_list o
unfolding ListDatabase.pop_right_found ListDatabase.pop_right_list
pop_right_found-type none key n db = refl
pop_right_found-type (some (list_t l)) key n db = ground arith
pop_right_found-type (some _) key n db = refl

pub range_found-type :
    (o : Option Data) (i j : ℤ) (a : ListDatabase.Answer (List Text))
    → range_found o i j ≡ some a
    → is_not_list a ≡ holds_other is_list o
unfolding range_found
range_found-type none i j a h = ground (arith, h)
range_found-type (some (list_t l)) i j a h = step (range_list l i j) h
  where
    step : (r : Option (List Text)) → answer ok r ≡ some a → is_not_list a ≡ false
    step none e = cc
    step (some r) e = ground (arith, e)
range_found-type (some _) i j a h = ground (arith, h)

pub trim_found-type :
    (o : Option Data) (key : Text) (i j : ℤ) (db : Database) (a : ListDatabase.Answer ℕ)
    (db' : Database)
    → trim_found o key i j db ≡ some (a, db')
    → is_not_list a ≡ holds_other is_list o
unfolding trim_found trim_list
trim_found-type none key i j db a db' h = ground (arith, h)
trim_found-type (some (list_t l)) key i j db a db' h = ground (arith, h)
trim_found-type (some _) key i j db a db' h = ground (arith, h)

pub remove_found-type :
    (o : Option Data) (key x : Text) (n : ℤ) (db : Database) (a : ListDatabase.Answer ℕ)
    (db' : Database)
    → remove_found o key x n db ≡ some (a, db')
    → is_not_list a ≡ holds_other is_list o
unfolding remove_found
remove_found-type none key x n db a db' h = ground (arith, h)
remove_found-type (some (list_t l)) key x n db a db' h = step (remove_list x n l) h
  where
    step :
        (r : Option (List Text))
        → answer {B = ListDatabase.Answer ℕ × Database}
            (λ kept. (ok (length l - length kept), store_list key kept db))
            r
          ≡ some (a, db')
        → is_not_list a ≡ false
    step none e = cc
    step (some r) e = ground (arith, e)
remove_found-type (some _) key x n db a db' h = ground (arith, h)

pub set_or_empty-type :
    {A : Type 0} (f : Set → A) (o : Option Data)
    → is_not_there (on_set f (set_or_empty o)) ≡ holds_other is_set o
set_or_empty-type f none = refl
set_or_empty-type f (some (set_t s)) = refl
set_or_empty-type f (some _) = refl

pub set_all-type : (o : Option Data) → is_not_there (set_or_empty o) ≡ holds_other is_set o
set_all-type none = refl
set_all-type (some (set_t s)) = refl
set_all-type (some _) = refl

pub add_found-type :
    (o : Option Data) (key : Text) (s : Set) (db : Database)
    → is_not_there (add_found o key s db).0 ≡ holds_other is_set o
unfolding add_found
add_found-type none key s db = refl
add_found-type (some (set_t t)) key s db = refl
add_found-type (some _) key s db = refl

pub set_remove-type :
    (env : Env) (o : Option Data) (key : Text) (n : ℕ) (db : Database)
    → is_not_there (SetDatabase.remove_found env o key n db).0 ≡ holds_other is_set o
unfolding SetDatabase.remove_found
set_remove-type env none key n db = refl
set_remove-type env (some (set_t s)) key n db = refl
set_remove-type env (some _) key n db = refl

pub discard_found-type :
    (o : Option Data) (key : Text) (s : Set) (db : Database) (a : Option ℕ) (db' : Database)
    → discard_found o key s db ≡ some (a, db')
    → is_not_there a ≡ holds_other is_set o
unfolding discard_found discard_left
discard_found-type none key s db a db' h = ground (arith, h)
discard_found-type (some (set_t t)) key s db a db' h = step (Set.erase_all s t) h
  where
    step : (r : Set) → discard_left r (length t) key db ≡ some (a, db') → is_not_there a ≡ false
    step [] e = cc
    step (x ∷ r) e = ground (arith, e)
discard_found-type (some _) key s db a db' h = ground (arith, h)

pub on_hash-type :
    {A : Type 0} (absent : HashDatabase.Answer A) (f : Map Text → HashDatabase.Answer A)
    (o : Option Data)
    → is_not_hash absent ≡ false
    → ((h : Map Text) → is_not_hash (f h) ≡ false)
    → is_not_hash (on_hash absent (err not_hash) f o) ≡ holds_other is_hash o
on_hash-type absent f none p q = p
on_hash-type absent f (some (hash_t h)) p q = q h
on_hash-type absent f (some _) p q = refl

pub hash_remove-type :
    (o : Option Data) (key : Text) (ks : List Text) (db : Database) (a : HashDatabase.Answer ℕ)
    (db' : Database)
    → on_hash (some (ok 0, db)) (some (err not_hash, db)) (λ h. remove_fields h key ks db) o
      ≡ some (a, db')
    → is_not_hash a ≡ holds_other is_hash o
unfolding remove_fields remove_left
hash_remove-type none key ks db a db' h = ground (arith, h)
hash_remove-type (some (hash_t t)) key ks db a db' h = step (erase_fields ks t) h
  where
    step : (r : Map Text) → remove_left r (length t) key db ≡ some (a, db') → is_not_hash a ≡ false
    step [] e = cc
    step (x ∷ r) e = ground (arith, e)
hash_remove-type (some _) key ks db a db' h = ground (arith, h)

pub incr_int_found-type :
    (o : Option Data) (key : Text) (v : ℤ) (db : Database) (a : Option ℤ) (db' : Database)
    → incr_int_found o key v db ≡ some (a, db')
    → is_not_there a ≡ holds_other is_int o
unfolding incr_int_found add_int
incr_int_found-type none key v db a db' h = ground (arith, h)
incr_int_found-type (some (int_t n)) key v db a db' h = ground (arith, h)
incr_int_found-type (some _) key v db a db' h = ground (arith, h)

pub incr_float_found-type :
    (env : Env) (o : Option Data) (key : Text) (v : ℕ) (db : Database)
    → is_not_there (incr_float_found env o key v db).0 ≡ holds_other is_float o
unfolding incr_float_found
incr_float_found-type env none key v db = refl
incr_float_found-type env (some (float_t n)) key v db = refl
incr_float_found-type env (some _) key v db = refl

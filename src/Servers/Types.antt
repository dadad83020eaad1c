-- ===== src/Servers/Types.antt =====
-- vanity/db/servers: the type that the value at a key must have for a request, and which answers say that
-- it has another one.
use vanity.Base.{
  ℕ, ℤ, ◌≡◌, refl, Bool, true, false, not, Option, none, some, List, ◌∷◌, ok, err, take, arith,
}
use vanity.Std.Text.{Text, codes, text_eq}
use vanity.Std.Map.{Map}
use vanity.Std.Set.{Set}
use vanity.Operations.{Data, DbOp, int_t, float_t, list_t, set_t, hash_t}
use vanity.Database.{Database}
use vanity.Database.Expiry.{refresh, erase_if_expired, is_expired, expire}
use vanity.Database.ListDatabase
use vanity.Database.ListDatabase.{not_list, out_of_range}
use vanity.Database.HashDatabase
use vanity.Database.HashDatabase.{not_hash, bad_key}
use vanity.Database.ListDatabase.{
  store_list, list_len, list_get, list_set, list_push_left, list_push_right, list_pop_left,
  list_pop_right,
}
use vanity.Database.ListDatabase.Ranges.{answer}
use vanity.Database.HashDatabase.{
  field_or_bad_key, field_size, hash_all, hash_get, hash_contains, hash_len, hash_key_len,
  hash_remove, hash_keys, hash_values, hash_many_get, on_hash, remove_fields, remove_left,
  erase_fields,
}
use vanity.Locked.{Reply, Outcome, done, reply, attempt, wal_log}
use vanity.Request.Call.{Call}
use vanity.Response.{Status, value_response, error_response, status_text}
use vanity.Servers.{Doubles, ok_with}
use vanity.Servers.Values.{number_result}
use vanity.Servers.Containers.{list_result, set_result, hash_result}

abbrev pub is_int : Data → Bool
is_int (int_t n) = true
is_int _ = false

abbrev pub is_float : Data → Bool
is_float (float_t x) = true
is_float _ = false

abbrev pub is_list : Data → Bool
is_list (list_t l) = true
is_list _ = false

abbrev pub is_set : Data → Bool
is_set (set_t s) = true
is_set _ = false

abbrev pub is_hash : Data → Bool
is_hash (hash_t h) = true
is_hash _ = false

-- The key that a request works on, and whether a value there has the type that it needs. Requests that
-- push or add nothing do not look at the value.
abbrev pub needs : Call → Option (Text × (Data → Bool))
needs (Call.incr_int key v) = some (key, is_int)
needs (Call.incr_float key v) = some (key, is_float)
needs (Call.list_len key) = some (key, is_list)
needs (Call.list_get key i) = some (key, is_list)
needs (Call.list_set key i v) = some (key, is_list)
needs (Call.list_push_left key (x ∷ xs)) = some (key, is_list)
needs (Call.list_push_right key (x ∷ xs)) = some (key, is_list)
needs (Call.list_pop_left key n) = some (key, is_list)
needs (Call.list_pop_right key n) = some (key, is_list)
needs (Call.list_range key i j) = some (key, is_list)
needs (Call.list_trim key i j) = some (key, is_list)
needs (Call.list_remove key v n) = some (key, is_list)
needs (Call.set_add key (x ∷ xs)) = some (key, is_set)
needs (Call.set_all key) = some (key, is_set)
needs (Call.set_discard key vs) = some (key, is_set)
needs (Call.set_len key) = some (key, is_set)
needs (Call.set_contains key v) = some (key, is_set)
needs (Call.set_remove key n) = some (key, is_set)
needs (Call.hash_all key) = some (key, is_hash)
needs (Call.hash_get key field) = some (key, is_hash)
needs (Call.hash_contains key field) = some (key, is_hash)
needs (Call.hash_len key) = some (key, is_hash)
needs (Call.hash_key_len key field) = some (key, is_hash)
needs (Call.hash_remove key fields) = some (key, is_hash)
needs (Call.hash_keys key) = some (key, is_hash)
needs (Call.hash_values key) = some (key, is_hash)
needs (Call.hash_many_get key fields) = some (key, is_hash)
needs _ = none

-- A key holds a value of another type.
abbrev pub holds_other : (Data → Bool) → Option Data → Bool
holds_other test none = false
holds_other test (some d) = not (test d)

-- There is a response, and it begins with BAD_TYPE.
abbrev pub says_bad_type : Option Text → Bool
says_bad_type none = false
says_bad_type (some t) = text_eq (take 8 t) (codes "BAD_TYPE")

abbrev pub Says : (Reply → Option Text) → Bool → Outcome → Type 0
Says answer b (done r db) = says_bad_type (answer r) ≡ b
Says answer b _ = Unit

pub ok_says : (v : Text) → says_bad_type (ok_with v) ≡ false
unfolding value_response status_text text_eq
ok_says v = refl

pub bad_type_says : (e : Text) → says_bad_type (some (error_response Status.bad_type e)) ≡ true
unfolding error_response status_text text_eq
bad_type_says e = refl

pub error_says : (e : Text) → says_bad_type (some (error_response Status.error e)) ≡ false
unfolding error_response status_text text_eq
error_says e = refl

pub refresh-wal_log :
    (now : ℤ) (key : Text) (trn : ℕ) (op : DbOp) (db : Database)
    → (refresh now key (wal_log trn op db)).m_data ≡ (refresh now key db).m_data
unfolding wal_log erase_if_expired is_expired expire
refresh-wal_log now key trn op db = ground arith

-- The answer says that there is no list.
abbrev pub is_not_list : {A : Type 0} → ListDatabase.Answer A → Bool
is_not_list (err not_list) = true
is_not_list _ = false

pub list_size_says :
    (a : ListDatabase.Answer ℕ) → says_bad_type (list_result (Reply.list_size a)) ≡ is_not_list a
unfolding list_result
list_size_says (ok x) = ok_says _
list_size_says (err not_list) = bad_type_says _
list_size_says (err out_of_range) = error_says _

pub list_text_says :
    (a : ListDatabase.Answer Text) → says_bad_type (list_result (Reply.list_text a)) ≡ is_not_list a
unfolding list_result
list_text_says (ok x) = ok_says _
list_text_says (err not_list) = bad_type_says _
list_text_says (err out_of_range) = error_says _

pub list_value_says :
    (a : ListDatabase.Answer (List Text))
    → says_bad_type (list_result (Reply.list_value a)) ≡ is_not_list a
unfolding list_result
list_value_says (ok x) = ok_says _
list_value_says (err not_list) = bad_type_says _
list_value_says (err out_of_range) = error_says _

abbrev pub is_not_there : {A : Type 0} → Option A → Bool
is_not_there none = true
is_not_there (some a) = false

pub set_size_says : (o : Option ℕ) → says_bad_type (set_result (Reply.set_size o)) ≡ is_not_there o
unfolding set_result
set_size_says none = bad_type_says _
set_size_says (some x) = ok_says _

pub set_value_says :
    (o : Option Set) → says_bad_type (set_result (Reply.set_value o)) ≡ is_not_there o
unfolding set_result
set_value_says none = bad_type_says _
set_value_says (some x) = ok_says _

pub set_bool_says :
    (o : Option Bool) → says_bad_type (set_result (Reply.set_bool o)) ≡ is_not_there o
unfolding set_result
set_bool_says none = bad_type_says _
set_bool_says (some x) = ok_says _

abbrev pub is_not_hash : {A : Type 0} → HashDatabase.Answer A → Bool
is_not_hash (err not_hash) = true
is_not_hash _ = false

module _ (doubles : Doubles) (e : Text) where
  pub int_says :
      (o : Option ℤ) → says_bad_type (number_result doubles e (Reply.int o)) ≡ is_not_there o
  unfolding number_result
  int_says none = bad_type_says _
  int_says (some x) = ok_says _

  pub float_says :
      (o : Option ℕ) → says_bad_type (number_result doubles e (Reply.float o)) ≡ is_not_there o
  unfolding number_result
  float_says none = bad_type_says _
  float_says (some x) = ok_says _

pub hash_value_says :
    (a : HashDatabase.Answer (Map Text))
    → says_bad_type (hash_result (Reply.hash_value a)) ≡ is_not_hash a
unfolding hash_result
hash_value_says (ok x) = ok_says _
hash_value_says (err not_hash) = bad_type_says _
hash_value_says (err bad_key) = error_says _

pub hash_text_says :
    (a : HashDatabase.Answer Text) → says_bad_type (hash_result (Reply.hash_text a)) ≡ is_not_hash a
unfolding hash_result
hash_text_says (ok x) = ok_says _
hash_text_says (err not_hash) = bad_type_says _
hash_text_says (err bad_key) = error_says _

pub hash_bool_says :
    (a : HashDatabase.Answer Bool) → says_bad_type (hash_result (Reply.hash_bool a)) ≡ is_not_hash a
unfolding hash_result
hash_bool_says (ok x) = ok_says _
hash_bool_says (err not_hash) = bad_type_says _
hash_bool_says (err bad_key) = error_says _

pub hash_size_says :
    (a : HashDatabase.Answer ℕ) → says_bad_type (hash_result (Reply.hash_size a)) ≡ is_not_hash a
unfolding hash_result
hash_size_says (ok x) = ok_says _
hash_size_says (err not_hash) = bad_type_says _
hash_size_says (err bad_key) = error_says _

pub hash_list_says :
    (a : HashDatabase.Answer (List Text))
    → says_bad_type (hash_result (Reply.hash_list a)) ≡ is_not_hash a
unfolding hash_result
hash_list_says (ok x) = ok_says _
hash_list_says (err not_hash) = bad_type_says _
hash_list_says (err bad_key) = error_says _

pub hash_options_says :
    (a : HashDatabase.Answer (List (Option Text)))
    → says_bad_type (hash_result (Reply.hash_options a)) ≡ is_not_hash a
unfolding hash_result
hash_options_says (ok x) = ok_says _
hash_options_says (err not_hash) = bad_type_says _
hash_options_says (err bad_key) = error_says _

module _ {A : Type 0} (answer : Reply → Option Text) (f : A → Reply) (b : Bool) where
  pub reply-Says :
      (x : A × Database) → says_bad_type (answer (f x.0)) ≡ b → Says answer b (reply f x)
  reply-Says (a, db) h = h

  pub attempt-Says :
      (x : Option (A × Database))
      → ((a : A) (db : Database) → x ≡ some (a, db) → says_bad_type (answer (f a)) ≡ b)
      → Says answer b (attempt f x)
  attempt-Says none h = tt
  attempt-Says (some (a, db)) h = h a db refl

pub range-Says :
    (b : Bool) (db : Database) (o : Option (ListDatabase.Answer (List Text)))
    → ((a : ListDatabase.Answer (List Text))
        → o ≡ some a
        → says_bad_type (list_result (Reply.list_value a)) ≡ b)
    → Says list_result b (
        attempt Reply.list_value
          (answer {B = ListDatabase.Answer (List Text) × Database} (λ r. (r, db)) o))
range-Says b db none h = tt
range-Says b db (some a) h = h a refl

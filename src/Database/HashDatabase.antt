-- ===== src/Database/HashDatabase.antt =====
-- vanity/db/db/hash_database.cpp. The outer `none` of some results is a run that the C++ standard
-- leaves undefined.
pub mod Valid
pub mod Laws
use vanity.Base.{
  ℕ, ◌-◌, ℤ, Bool, true, false, not, Option, none, some, List, [], ◌∷◌, length, Result, ok, err,
  if◌then◌else◌, map,
}
use vanity.Std.Text.{Text}
use vanity.Std.Map
use vanity.Std.Map.{Map, find, contains}
use vanity.Operations.{Data, string_t, hash_t}
use vanity.Database.{Database, put}
use vanity.Database.Expiry.{refresh, clear_expiry, expiry_aware_del}

pub data HashError : Type 0 where
  not_hash bad_key : HashError

abbrev pub Answer : Type 0 → Type 0
Answer A = Result HashError A

unfoldable pub hash_set : Text → Map Text → Database → Database
unfolding clear_expiry
hash_set key values db = clear_expiry key (put key (hash_t values) db)

-- The three ways out that most operations share: a missing key, another type, a hash.
abbrev pub on_hash {ℓ} : {B : Type ℓ} → B → B → (Map Text → B) → Option Data → B
on_hash absent other f none = absent
on_hash absent other f (some (hash_t h)) = f h
on_hash absent other f (some _) = other

unfoldable pub hash_all : ℤ → Text → Database → Answer (Map Text) × Database
hash_all now key db =
    let db' = refresh now key db in
    (on_hash (ok []) (err not_hash) (λ h. ok h) (find key db'.m_data), db')

abbrev pub field_or_bad_key : Option Text → Answer Text
field_or_bad_key none = err bad_key
field_or_bad_key (some v) = ok v

unfoldable pub hash_get : ℤ → Text → Text → Database → Answer Text × Database
hash_get now key hash_key db =
    let db' = refresh now key db in
    (
      on_hash (err bad_key) (err not_hash) (λ h. field_or_bad_key (find hash_key h))
          (find key db'.m_data),
      db',
    )

unfoldable pub hash_contains : ℤ → Text → Text → Database → Answer Bool × Database
hash_contains now key hash_key db =
    let db' = refresh now key db in
    (on_hash (ok false) (err not_hash) (λ h. ok (contains hash_key h)) (find key db'.m_data), db')

unfoldable pub hash_len : ℤ → Text → Database → Answer ℕ × Database
hash_len now key db =
    let db' = refresh now key db in
    (on_hash (ok 0) (err not_hash) (λ h. ok (length h)) (find key db'.m_data), db')

abbrev pub field_size : Option Text → Answer ℕ
field_size none = err bad_key
field_size (some v) = ok (length v)

unfoldable pub hash_key_len : ℤ → Text → Text → Database → Answer ℕ × Database
hash_key_len now key hash_key db =
    let db' = refresh now key db in
    (
      on_hash (err bad_key) (err not_hash) (λ h. field_size (find hash_key h))
          (find key db'.m_data),
      db',
    )

-- for (hash_key : hash_keys) hash.erase(hash_key)
unfoldable pub erase_fields : List Text → Map Text → Map Text
erase_fields [] h = h
erase_fields (k ∷ ks) h = erase_fields ks (Map.erase k h)

-- `size - hash.size()`, where an empty hash has just been erased together with its key: the
-- reference `hash` then dangles.
unfoldable pub remove_left : Map Text → ℕ → Text → Database → Option (Answer ℕ × Database)
remove_left [] size key db = none
remove_left (f ∷ left) size key db =
    some (ok (size - length (f ∷ left)), put key (hash_t (f ∷ left)) db)

unfoldable pub remove_fields : Map Text → Text → List Text → Database → Option (Answer ℕ × Database)
unfolding erase_fields remove_left
remove_fields h key hash_keys db = remove_left (erase_fields hash_keys h) (length h) key db

unfoldable pub hash_remove : ℤ → Text → List Text → Database → Option (Answer ℕ × Database)
unfolding remove_fields
hash_remove now key hash_keys db =
    let db' = refresh now key db in
    on_hash (some (ok 0, db')) (some (err not_hash, db')) (λ h. remove_fields h key hash_keys db')
      (find key db'.m_data)

unfoldable pub hash_keys : ℤ → Text → Database → Answer (List Text) × Database
hash_keys now key db =
    let db' = refresh now key db in
    (on_hash (ok []) (err not_hash) (λ h. ok (Map.keys h)) (find key db'.m_data), db')

unfoldable pub hash_values : ℤ → Text → Database → Answer (List Text) × Database
hash_values now key db =
    let db' = refresh now key db in
    (on_hash (ok []) (err not_hash) (λ h. ok (Map.values h)) (find key db'.m_data), db')

-- The loop of hash_update. A field that is there is overwritten. A new one is taken out of
-- `values` by `values.extract(it)`, which invalidates `it`, and the loop goes on with `++it`.
unfoldable pub update_fields : Map Text → Map Text → Option (Map Text)
update_fields [] h = some h
update_fields ((k, v) ∷ values) h =
    let rest = update_fields values (Map.assign k v h) in if contains k h then rest else none

abbrev pub store_hash :
    Map Text → Text → Option (Map Text) → Database → Option (Answer ℕ × Database)
store_hash h key none db = none
store_hash h key (some h') db = some (ok (length h' - length h), put key (hash_t h') db)

-- A missing key gets `m_data[key] = {}`, which is the first alternative of the variant: an empty
-- string, and no hash.
unfoldable pub hash_update : ℤ → Text → Map Text → Database → Option (Answer ℕ × Database)
unfolding update_fields
hash_update now key values db =
    let db' = refresh now key db in
    on_hash (some (err not_hash, put key (string_t []) db')) (some (err not_hash, db'))
      (λ h. store_hash h key (update_fields values h) db') (find key db'.m_data)

unfoldable pub fields : List Text → Map Text → List (Option Text)
fields [] h = []
fields (k ∷ ks) h = find k h ∷ fields ks h

unfoldable pub missing_fields : List Text → List (Option Text)
missing_fields [] = []
missing_fields (k ∷ ks) = none ∷ missing_fields ks

unfoldable pub hash_many_get :
    ℤ → Text → List Text → Database → Answer (List (Option Text)) × Database
unfolding fields missing_fields
hash_many_get now key hash_keys db =
    let db' = refresh now key db in
    (
      on_hash (ok (missing_fields hash_keys)) (err not_hash) (λ h. ok (fields hash_keys h))
          (find key db'.m_data),
      db',
    )

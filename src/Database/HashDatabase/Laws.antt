-- ===== src/Database/HashDatabase/Laws.antt =====
-- What the writes of vanity/db/db/hash_database.cpp leave behind, and where they are defined.
use vanity.Base.{
  ◌-◌, ℤ, ◌≡◌, refl, ◌∙◌, Bool, true, false, ◌&&◌, none, some, List, [], ◌∷◌, length, ok, err,
  arith, if◌then◌else◌,
}
use vanity.Std.Text.{Text, eq_iff}
use vanity.Std.Map
use vanity.Std.Map.{
  Map, find, contains, is_some, find-assign, find-erase, find-assign_self, find-erase_self,
}
use vanity.Operations.{string_t, hash_t}
use vanity.Database.{Database, put}
use vanity.Database.Expiry.{refresh, clear_expiry, is_expired}
use vanity.Database.Expiry.Laws.{refresh-put, refresh_fresh}
use vanity.Database.General.{get}
use vanity.Database.SetDatabase.Laws.{all_in}
use vanity.Std.Set.{member}
use vanity.Database.HashDatabase.{
  not_hash, hash_set, hash_update, update_fields, store_hash, hash_remove, erase_fields,
  remove_fields, remove_left, hash_get, field_or_bad_key,
}

-- Whether a hash has a field for every one of the values.
unfoldable pub has_all : Map Text → Map Text → Bool
has_all [] h = true
has_all ((k, v) ∷ values) h = contains k h && has_all values h

unfoldable pub assign_all : Map Text → Map Text → Map Text
assign_all [] h = h
assign_all ((k, v) ∷ values) h = assign_all values (Map.assign k v h)

length-assign :
    (k v : Text) (h : Map Text) → contains k h ≡ true → length (Map.assign k v h) ≡ length h
unfolding Map.assign find
length-assign k v [] e = ground arith
length-assign k v ((j, w) ∷ h) e = ground (arith, length-assign k v h)

has_all-assign :
    (k v : Text) (values h : Map Text)
    → contains k h ≡ true
    → has_all values (Map.assign k v h) ≡ has_all values h
unfolding has_all
has_all-assign k v [] h e = refl
has_all-assign k v ((j, w) ∷ values) h e =
    ground (arith, has_all-assign k v values h e, find-assign k j v h, eq_iff k j)

update_fields_lem :
    (values h : Map Text)
    → update_fields values h ≡ (if has_all values h then some (assign_all values h) else none)
unfolding update_fields has_all assign_all
update_fields_lem [] h = refl
update_fields_lem ((k, v) ∷ values) h =
    ground (arith, update_fields_lem values (Map.assign k v h), has_all-assign k v values h)

length-assign_all :
    (values h : Map Text) → has_all values h ≡ true → length (assign_all values h) ≡ length h
unfolding has_all assign_all
length-assign_all [] h e = refl
length-assign_all ((k, v) ∷ values) h e = ground (
  arith,
  length-assign_all values (Map.assign k v h),
  length-assign k v h,
  has_all-assign k v values h,
)

module _ (now : ℤ) (key : Text) (values h : Map Text) (db : Database) where
  update_hash :
      (b : Bool)
      → has_all values h ≡ b
      → store_hash h key (update_fields values h) db
        ≡ (if b then some (ok 0, put key (hash_t (assign_all values h)) db) else none)
  update_hash b e = rw (update_fields_lem values h, e) (at b e)
    where
      at :
          (b : Bool)
          → has_all values h ≡ b
          → store_hash h key (if b then some (assign_all values h) else none) db
            ≡ (if b then some (ok 0, put key (hash_t (assign_all values h)) db) else none)
      at true e = ground (arith, length-assign_all values h e)
      at false e = refl

-- HASH_UPDATE of a hash never adds a field. It is undefined where the hash lacks one of the fields;
-- else it overwrites them and answers with 0.
pub hash_update_lem :
    (now : ℤ) (key : Text) (values h : Map Text) (db : Database)
    → find key (refresh now key db).m_data ≡ some (hash_t h)
    → hash_update now key values db ≡ (
        if has_all values h
        then some (ok 0, put key (hash_t (assign_all values h)) (refresh now key db))
        else none)
unfolding hash_update
hash_update_lem now key values h db e =
    rw e (update_hash now key values h (refresh now key db) (has_all values h) refl)

-- HASH_UPDATE of a key without a value answers that the value is not a hash, and leaves a value there that
-- GET finds: an empty string.
pub get-hash_update :
    (now : ℤ) (key : Text) (values : Map Text) (db : Database)
    → find key (refresh now key db).m_data ≡ none
    → (d : Database) × ((hash_update now key values db ≡ some (err not_hash, d))
        × ((get now key d).0 ≡ some (string_t [])))
unfolding hash_update get
get-hash_update now key values db e = (
  put key (string_t []) (refresh now key db),
  (
    rw e refl,
    rw
        (
          refresh-put now key (string_t []) db,
          find-assign_self key (string_t []) (refresh now key db).m_data,
        )
        refl,
  ),
)

-- HASH_GET finds what HASH_SET has stored, for every field, even if the key had been due to expire.
pub hash_get-hash_set :
    (now : ℤ) (key field : Text) (values : Map Text) (db : Database)
    → (hash_get now key field (hash_set key values db)).0 ≡ field_or_bad_key (find field values)
unfolding hash_get hash_set is_expired
hash_get-hash_set now key field values db =
    let d = clear_expiry key (put key (hash_t values) db) in
    rw
      (
        refresh_fresh now key d (ground (arith, find-erase_self key db.m_expiry_times)),
        find-assign_self key (hash_t values) db.m_data,
      )
      refl

all_in-erase_field :
    (k : Text) (ks : List Text) (h : Map Text)
    → all_in (Map.keys (Map.erase k h)) ks ≡ all_in (Map.keys h) (k ∷ ks)
unfolding all_in member Map.keys Map.erase
all_in-erase_field k ks [] = refl
all_in-erase_field k ks ((j, v) ∷ h) =
    ground (arith, all_in-erase_field k ks h, eq_iff j k, eq_iff k j)

abbrev pub no_fields : Map Text → Bool
no_fields [] = true
no_fields (f ∷ h) = false

all_in-no_fields : (h : Map Text) → no_fields h ≡ all_in (Map.keys h) []
unfolding all_in member Map.keys
all_in-no_fields [] = refl
all_in-no_fields (f ∷ h) = refl

no_fields-erase_fields :
    (ks : List Text) (h : Map Text) → no_fields (erase_fields ks h) ≡ all_in (Map.keys h) ks
unfolding erase_fields
no_fields-erase_fields [] h = all_in-no_fields h
no_fields-erase_fields (k ∷ ks) h =
    no_fields-erase_fields ks (Map.erase k h) ∙ all_in-erase_field k ks h

-- HASH_REMOVE of a hash takes the given fields out and answers with the change of its size. The call is
-- undefined where they are all of its fields.
pub hash_remove_lem :
    (now : ℤ) (key : Text) (ks : List Text) (h : Map Text) (db : Database)
    → find key (refresh now key db).m_data ≡ some (hash_t h)
    → hash_remove now key ks db ≡ (
        if all_in (Map.keys h) ks
        then none
        else some (
          ok (length h - length (erase_fields ks h)),
          put key (hash_t (erase_fields ks h)) (refresh now key db),
        ))
unfolding hash_remove remove_fields remove_left
hash_remove_lem now key ks h db e = rw e (ground (arith, no_fields-erase_fields ks h))

-- ===== src/Database/Writes.antt =====
-- What a read finds after a write: vanity/db/db/general_database.cpp and primitive_database.cpp.
use vanity.Base.{ℤ, ◌≡◌, true, none, some, arith, if◌then◌else◌}
use vanity.Std.Text.{Text, text_eq, eq_iff, eq_refl}
use vanity.Std.Map.{find, find-assign, find-erase}
use vanity.Operations.{string_t}
use vanity.Database.{Database}
use vanity.Database.Expiry.{expire, erase_if_expired, is_expired, is_past, set_expiry}
use vanity.Database.General.{get, del}
use vanity.Database.Primitive.{str_set}

-- What GET answers with: the value of the key, unless the key is expired.
pub get_lem :
    (now : ℤ) (j : Text) (db : Database)
    → (get now j db).0 ≡ (if is_expired now j db then none else find j db.m_data)
unfolding get erase_if_expired expire
get_lem now j db = ground (arith, find-erase j j db.m_data, eq_refl j)

module _ (now : ℤ) (key : Text) (db : Database) (j : Text) where
  -- After STR_SET, GET of the key answers with the string, even if the key had been due to expire, and
  -- GET of another key with what it answered before.
  pub get-str_set :
      (v : Text)
      → (get now j (str_set key v db)).0
        ≡ (if text_eq key j then some (string_t v) else (get now j db).0)
  unfolding str_set is_expired
  get-str_set v = ground (
    arith,
    get_lem now j (str_set key v db),
    get_lem now j db,
    find-assign key j (string_t v) db.m_data,
    find-erase key j db.m_expiry_times,
  )

  -- After DEL, GET of the key answers with nothing and GET of another key with what it answered before.
  pub get-del : (get now j (del key db).1).0 ≡ (if text_eq key j then none else (get now j db).0)
  unfolding del is_expired
  get-del = ground (
    arith,
    get_lem now j (del key db).1,
    get_lem now j db,
    find-erase key j db.m_data,
    find-erase key j db.m_expiry_times,
  )

  -- Once SET_EXPIRY has given a key a time, GET answers with nothing if the time has passed and with
  -- the value that the database holds if it has not, whatever time the key had before. GET of
  -- another key answers with what it answered before.
  pub get-set_expiry :
      (t : ℤ)
      → db.m_expiry_enabled ≡ true
      → (get now j (set_expiry key t db)).0 ≡ (
          if text_eq key j
          then (if is_past now (some t) then none else find key db.m_data)
          else (get now j db).0)
  unfolding set_expiry is_expired
  get-set_expiry t h = ground (
    arith,
    get_lem now j (set_expiry key t db),
    get_lem now j db,
    find-assign key j t db.m_expiry_times,
    eq_iff key j,
  )

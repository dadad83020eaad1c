-- ===== src/Database/General.antt =====
-- vanity/db/db/general_database.cpp: the operations on keys of any type.
use vanity.Base.{ℕ, ℤ, Bool, true, false, Option, none, some, List, [], if◌then◌else◌}
use vanity.Std.Text.{Text, text_eq}
use vanity.Std.Map
use vanity.Std.Map.{Map, find, contains}
use vanity.Operations.{Data, string_t, int_t, float_t, list_t, set_t, hash_t}
use vanity.Database.{Database, put}
use vanity.Database.Expiry.{
  refresh, clear_expiry, clear_all_expiry, expiry_aware_get, expiry_aware_del, deep_purge,
}

-- variant::index
abbrev pub index : Data → ℕ
index (string_t _) = 0
index (int_t _) = 1
index (float_t _) = 2
index (list_t _) = 3
index (set_t _) = 4
index (hash_t _) = 5

unfoldable pub has : ℤ → Text → Database → Bool × Database
has now key db = let db' = refresh now key db in (contains key db'.m_data, db')

unfoldable pub get : ℤ → Text → Database → Option Data × Database
unfolding expiry_aware_get
get now key db = expiry_aware_get now key db

unfoldable pub reset : Database → Database
unfolding clear_all_expiry
reset db = clear_all_expiry (record db { m_data = [] })

unfoldable pub del : Text → Database → Bool × Database
unfolding expiry_aware_del
del key db = expiry_aware_del key db

abbrev pub index_of : Option Data → Option ℕ
index_of none = none
index_of (some d) = some (index d)

unfoldable pub type : ℤ → Text → Database → Option ℕ × Database
type now key db = let db' = refresh now key db in (index_of (find key db'.m_data), db')

unfoldable pub keys : ℤ → Database → List Text × Database
keys now db = let db' = deep_purge now db in (Map.keys db'.m_data, db')

-- What copy_to does once it has looked up the value of `from`.
unfoldable pub copy_found : Option Data → Text → Text → Database → Bool × Database
unfolding clear_expiry
copy_found none from to db = (false, db)
copy_found (some d) from to db =
    if text_eq from to then (true, db) else (true, clear_expiry to (put to d db))

unfoldable pub copy_to : ℤ → Text → Text → Database → Bool × Database
unfolding copy_found
copy_to now from to db =
    let db' = refresh now from db in copy_found (find from db'.m_data) from to db'

-- if (m_expiry_times.contains(from)) m_expiry_times[to] = m_expiry_times.at(from)
unfoldable pub move_time : Option ℤ → Text → Database → Database
move_time none to db = db
move_time (some t) to db = record db { m_expiry_times = Map.assign to t db.m_expiry_times }

unfoldable pub move_found : Option Data → Text → Text → Database → Bool × Database
unfolding move_time
move_found none from to db = (false, db)
move_found (some d) from to db =
    if text_eq from to
    then (true, db)
    else (true, (del from (move_time (find from db.m_expiry_times) to (put to d db))).1)

unfoldable pub move_to : ℤ → Text → Text → Database → Bool × Database
unfolding move_found
move_to now from to db =
    let db' = refresh now from db in move_found (find from db'.m_data) from to db'

-- copy_to_db between two different databases, on both of them; `this == &to` is the case where the
-- indices agree, and then nothing but the expiry of the key happens
unfoldable pub copy_found_db : Option Data → Text → Database → Database → Bool × Database × Database
unfolding clear_expiry
copy_found_db none key db to = (false, db, to)
copy_found_db (some d) key db to = (true, db, clear_expiry key (put key d to))

unfoldable pub copy_to_db : ℤ → Text → Database → Database → Bool × Database × Database
unfolding copy_found_db
copy_to_db now key db to =
    let db' = refresh now key db in copy_found_db (find key db'.m_data) key db' to

unfoldable pub move_found_db : Option Data → Text → Database → Database → Bool × Database × Database
unfolding move_time
move_found_db none key db to = (false, db, to)
move_found_db (some d) key db to =
    (true, (del key db).1, move_time (find key db.m_expiry_times) key (put key d to))

unfoldable pub move_to_db : ℤ → Text → Database → Database → Bool × Database × Database
unfolding move_found_db
move_to_db now key db to =
    let db' = refresh now key db in move_found_db (find key db'.m_data) key db' to

-- copy_to_db and move_to_db where the destination is the database itself
unfoldable pub to_same_db : ℤ → Text → Database → Bool × Database
to_same_db now key db = let db' = refresh now key db in (contains key db'.m_data, db')

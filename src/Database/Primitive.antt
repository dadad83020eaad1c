-- ===== src/Database/Primitive.antt =====
-- vanity/db/db/primitive_database.cpp: strings, integers and doubles.
use vanity.Base.{
  ℕ, ℤ, pos, negsuc, ◌+ℤ◌, ltb_ℤ, ◌^◌, ◌-◌, Bool, not, ◌||◌, Option, none, some, List, [], ◌∷◌,
  length, if◌then◌else◌,
}
use vanity.Std.Text.{Text}
use vanity.Std.Map.{find}
use vanity.Operations.{Data, string_t, int_t, float_t}
use vanity.Database.{Database, Env, put}
use vanity.Database.Expiry.{refresh, refresh_all, clear_expiry, expiry_aware_get}

unfoldable pub str_set : Text → Text → Database → Database
unfolding clear_expiry
str_set key value db = clear_expiry key (put key (string_t value) db)

unfoldable pub int_set : Text → ℤ → Database → Database
unfolding clear_expiry
int_set key value db = clear_expiry key (put key (int_t value) db)

unfoldable pub float_set : Text → ℕ → Database → Database
unfolding clear_expiry
float_set key value db = clear_expiry key (put key (float_t value) db)

-- The range of int64_t.
abbrev pub int64_max : ℤ
int64_max = pos (2 ^ 63 - 1)

abbrev pub int64_min : ℤ
int64_min = negsuc (2 ^ 63 - 1)

unfoldable pub in_int64 : ℤ → Bool
in_int64 z = not (ltb_ℤ int64_max z || ltb_ℤ z int64_min)

-- `val += value; return val`, whose overflow is undefined: `none` outside
unfoldable pub add_int : Text → ℤ → ℤ → Database → Option (Option ℤ × Database)
unfolding in_int64
add_int key val value db =
    let sum = val +ℤ value in if in_int64 sum then some (some sum, put key (int_t sum) db) else none

-- incr_int once it has looked up its key
unfoldable pub incr_int_found : Option Data → Text → ℤ → Database → Option (Option ℤ × Database)
unfolding add_int
incr_int_found none key value db = some (some value, put key (int_t value) db)
incr_int_found (some (int_t val)) key value db = add_int key val value db
incr_int_found (some _) key value db = some (none, db)

unfoldable pub incr_int : ℤ → Text → ℤ → Database → Option (Option ℤ × Database)
unfolding incr_int_found
incr_int now key value db =
    let db' = refresh now key db in incr_int_found (find key db'.m_data) key value db'

unfoldable pub incr_float_found : Env → Option Data → Text → ℕ → Database → Option ℕ × Database
incr_float_found env none key value db = (some value, put key (float_t value) db)
incr_float_found env (some (float_t val)) key value db =
    let sum = env.float_add val value in (some sum, put key (float_t sum) db)
incr_float_found env (some _) key value db = (none, db)

unfoldable pub incr_float : Env → Text → ℕ → Database → Option ℕ × Database
unfolding incr_float_found
incr_float env key value db =
    let db' = refresh env.now key db in incr_float_found env (find key db'.m_data) key value db'

abbrev pub size_of_string : Option Data → Option ℕ
size_of_string (some (string_t s)) = some (length s)
size_of_string _ = none

unfoldable pub str_len : ℤ → Text → Database → Option ℕ × Database
str_len now key db = let db' = refresh now key db in (size_of_string (find key db'.m_data), db')

-- for (key : keys) values.emplace_back(expiry_aware_get(key))
unfoldable pub get_each : ℤ → List Text → Database → List (Option Data) × Database
unfolding expiry_aware_get
get_each now [] db = ([], db)
get_each now (k ∷ ks) db =
    let (value, db') = expiry_aware_get now k db in
    let (values, db'') = get_each now ks db' in (value ∷ values, db'')

unfoldable pub many_get : ℤ → List Text → Database → List (Option Data) × Database
unfolding get_each
many_get now keys db = get_each now keys (refresh_all now keys db)

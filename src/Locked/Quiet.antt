-- ===== src/Locked/Quiet.antt =====
-- Operations at a time when no key has expired. They do not depend on the clock, on the flag that
-- enables expiry, or on what the log holds.
pub mod Containers
use vanity.Base.{
  ℕ, ℤ, ◌≡◌, refl, Bool, true, false, Option, none, some, List, [], ◌∷◌, arith, length, drop, take,
  reverse, ◌++◌, get_elem?, ◌-◌, if◌then◌else◌, not,
}
use vanity.Std.Text.{Text}
use vanity.Std.Set.{Set}
use vanity.Std.Map.{Map, find}
use vanity.Operations.{Data, list_t, set_t, hash_t, int_t, float_t, WalEntry}
use vanity.Database.{Database, Env, put}
use vanity.Database.Expiry.{
  is_expired, erase_if_expired, refresh, refresh_all, clear_expiry, set_expiry, expiry_aware_del,
  clear_all_expiry,
}
use vanity.Database.General.{reset, del, copy_to, copy_found, move_to, move_found, move_time}
use vanity.Database.Primitive.{
  str_set, int_set, float_set, incr_int, incr_int_found, incr_float, incr_float_found,
}

-- The database with another flag and another log.
abbrev pub aside : Bool → List WalEntry → Database → Database
aside e w db = record db { m_expiry_enabled = e; wal = w }

abbrev pub on_pair : {A : Type 0} → (Database → Database) → A × Database → A × Database
on_pair f (a, db) = (a, f db)

abbrev pub on_option :
    {A : Type 0} → (Database → Database) → Option (A × Database) → Option (A × Database)
on_option f none = none
on_option f (some (a, db)) = some (a, f db)

-- No key has expired.
abbrev pub IsQuiet : ℤ → Database → Type 0
IsQuiet now db = (k : Text) → is_expired now k db ≡ false

pub refresh_quiet : (now : ℤ) (k : Text) (db : Database) → IsQuiet now db → refresh now k db ≡ db
unfolding erase_if_expired
refresh_quiet now k db q = ground (arith, q k)

pub refresh_all_quiet :
    (now : ℤ) (ks : List Text) (db : Database) → IsQuiet now db → refresh_all now ks db ≡ db
unfolding refresh_all
refresh_all_quiet now [] db q = refl
refresh_all_quiet now (k ∷ ks) db q = rw (refresh_quiet now k db q) (refresh_all_quiet now ks db q)

module _ (e : Bool) (w : List WalEntry) where
  pub copy_found-aside :
      (o : Option Data) (from to : Text) (db : Database)
      → copy_found o from to (aside e w db) ≡ on_pair (aside e w) (copy_found o from to db)
  unfolding copy_found
  copy_found-aside none from to db = refl
  copy_found-aside (some d) from to db = ground arith

  move_time-aside :
      (o : Option ℤ) (to : Text) (db : Database)
      → move_time o to (aside e w db) ≡ aside e w (move_time o to db)
  unfolding move_time
  move_time-aside none to db = refl
  move_time-aside (some t) to db = refl

  del-aside : (k : Text) (db : Database) → del k (aside e w db) ≡ on_pair (aside e w) (del k db)
  unfolding del
  del-aside k db = refl

  pub move_found-aside :
      (o : Option Data) (from to : Text) (db : Database)
      → move_found o from to (aside e w db) ≡ on_pair (aside e w) (move_found o from to db)
  unfolding move_found del move_time
  move_found-aside none from to db = refl
  move_found-aside (some d) from to db = ground arith

  pub set_expiry-aside :
      (k : Text) (t : ℤ) (db : Database)
      → set_expiry k t (aside e w db) ≡ aside e w (set_expiry k t db)
  unfolding set_expiry
  set_expiry-aside k t db = ground arith

  pub incr_int_found-aside :
      (o : Option Data) (k : Text) (x : ℤ) (db : Database)
      → incr_int_found o k x (aside e w db) ≡ on_option (aside e w) (incr_int_found o k x db)
  unfolding incr_int_found
  incr_int_found-aside none k x db = refl
  incr_int_found-aside (some (int_t y)) k x db = ground arith
  incr_int_found-aside (some _) k x db = refl

  pub incr_float_found-aside :
      (env env' : Env) (o : Option Data) (k : Text) (x : ℕ) (db : Database)
      → env'.float_add ≡ env.float_add
      → incr_float_found env' o k x (aside e w db)
        ≡ on_pair (aside e w) (incr_float_found env o k x db)
  unfolding incr_float_found
  incr_float_found-aside env env' none k x db h = refl
  incr_float_found-aside env env' (some (float_t y)) k x db h = rw h
  incr_float_found-aside env env' (some _) k x db h = refl

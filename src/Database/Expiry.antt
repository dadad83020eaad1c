-- ===== src/Database/Expiry.antt =====
-- vanity/db/db/expiry_database.cpp, with LockedDatabase::pre_expire for the hook: keys that vanish
-- when their time has passed.
pub mod Laws
pub mod Purge
use vanity.Base.{
  ℕ, zero, suc, ◌+◌, ◌-◌, ◌/◌, ◌<◌, ◌≡◌, refl, Bool, true, false, not, Option, none, some, List, [],
  ◌∷◌, ◌++◌, arith, ltb, ltb_ℤ, ℤ, if◌then◌else◌, length, ◌==◌,
}
use Prim.Native.Nat.{min}
use vanity.Std.Text.{Text}
use vanity.Std.Map.{Map, find, contains}
use vanity.Std.Map
use vanity.Operations.{Data, WalEntry}
use vanity.Database.{Database, Env}

unfoldable pub clear_expiry : Text → Database → Database
clear_expiry key db = record db { m_expiry_times = Map.erase key db.m_expiry_times }

-- LockedDatabase::pre_expire
unfoldable pub pre_expire : Text → Database → Database
pre_expire key db = record db { wal = db.wal ++ WalEntry.expire key ∷ [] }

unfoldable pub do_expire : Text → Database → Database
unfolding clear_expiry
do_expire key db = clear_expiry key (record db { m_data = Map.erase key db.m_data })

unfoldable pub expire : Text → Database → Database
unfolding do_expire pre_expire
expire key db = do_expire key (pre_expire key db)

-- m_expiry_times.contains(key) and now > m_expiry_times[key]
abbrev pub is_past : ℤ → Option ℤ → Bool
is_past now none = false
is_past now (some t) = ltb_ℤ t now

unfoldable pub is_expired : ℤ → Text → Database → Bool
is_expired now key db =
    if not db.m_expiry_enabled then false else is_past now (find key db.m_expiry_times)

unfoldable pub erase_if_expired : ℤ → Text → Database → Bool × Database
erase_if_expired now key db =
    if not (is_expired now key db) then (false, db) else (true, expire key db)

-- erase_if_expired(key) where the result is not used
abbrev pub refresh : ℤ → Text → Database → Database
refresh now key db = (erase_if_expired now key db).1

-- for (key : keys) erase_if_expired(key)
unfoldable pub refresh_all : ℤ → List Text → Database → Database
refresh_all now [] db = db
refresh_all now (k ∷ ks) db = refresh_all now ks (refresh now k db)

unfoldable pub set_expiry : Text → ℤ → Database → Database
set_expiry key time db =
    if contains key db.m_data
    then record db { m_expiry_times = Map.assign key time db.m_expiry_times }
    else db

unfoldable pub get_expiry : ℤ → Text → Database → Option ℤ × Database
get_expiry now key db = let db' = refresh now key db in (find key db'.m_expiry_times, db')

unfoldable pub clear_all_expiry : Database → Database
clear_all_expiry db = record db { m_expiry_times = [] }

-- force_expire, which skips the hook
unfoldable pub force_expire : Text → Database → Database
force_expire key db = do_expire key db

unfoldable pub expiry_enabled : Bool → Database → Database
expiry_enabled enable db = record db { m_expiry_enabled = enable }

unfoldable pub expiry_aware_get : ℤ → Text → Database → Option Data × Database
expiry_aware_get now key db = let db' = refresh now key db in (find key db'.m_data, db')

unfoldable pub expiry_aware_del : Text → Database → Bool × Database
unfolding clear_expiry
expiry_aware_del key db =
    let db' = clear_expiry key db in
    (contains key db'.m_data, record db' { m_data = Map.erase key db'.m_data })

-- The keys that the loop of deep_purge collects.
unfoldable pub expired_keys : ℤ → List Text → Database → List Text
expired_keys now [] db = []
expired_keys now (k ∷ ks) db =
    let rest = expired_keys now ks db in if is_expired now k db then k ∷ rest else rest

unfoldable pub expire_all : List Text → Database → Database
expire_all [] db = db
expire_all (k ∷ ks) db = expire_all ks (expire k db)

unfoldable pub deep_purge : ℤ → Database → Database
deep_purge now db = expire_all (expired_keys now (Map.keys db.m_expiry_times) db) db

-- The loop over the sampled keys, which counts those that were erased.
unfoldable pub purge_sample : ℤ → List Text → ℕ → Database → ℕ × Database
purge_sample now [] n db = (n, db)
purge_sample now (k ∷ ks) n db =
    let r = erase_if_expired now k db in purge_sample now ks (if r.0 then n + 1 else n) r.1

abbrev pub max_sample_size : ℕ
max_sample_size = 100

-- The rounds of shallow_purge, `none` when the fuel is used up. The quotient of two size_t is
-- below 0.25 exactly when it is 0.
unfoldable pub shallow_purge : ℕ → Env → Database → Option Database
shallow_purge zero env db = none
shallow_purge (suc fuel) env db =
    let all_keys = Map.keys db.m_expiry_times in
    let size = min max_sample_size (length all_keys) in
    let r = purge_sample env.now (env.sample fuel all_keys size) 0 db in
    let next = shallow_purge fuel env r.1 in
    if length all_keys == 0 then some db else if r.0 / size == 0 then some r.1 else next

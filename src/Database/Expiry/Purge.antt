-- ===== src/Database/Expiry/Purge.antt =====
-- The purges of vanity/db/db/expiry_database.cpp: which keys they erase, and that they end.
use vanity.Base.{
  ℕ, zero, suc, ◌+◌, ◌≤◌, ◌<◌, ◌/◌, ℤ, ◌≡◌, refl, true, not, ◌&&◌, none, List, [], ◌∷◌, arith,
  length, if◌then◌else◌,
}
use Prim.Native.Nat.{min}
use vanity.Std.Text.{Text, eq_iff}
use vanity.Std.Map
use vanity.Std.Map.{Map, find, contains, find-erase, member-keys, is_some}
use vanity.Std.Set.{member}
use vanity.Database.{Database, Env}
use vanity.Database.Expiry.{
  expire, is_expired, erase_if_expired, expired_keys, expire_all, deep_purge, purge_sample,
  shallow_purge, max_sample_size,
}
use vanity.Database.General

member-expired_keys :
    (now : ℤ) (j : Text) (ks : List Text) (db : Database)
    → member j (expired_keys now ks db) ≡ member j ks && is_expired now j db
unfolding expired_keys member
member-expired_keys now j [] db = refl
member-expired_keys now j (k ∷ ks) db = ground (arith, member-expired_keys now j ks db, eq_iff k j)

expired_key :
    (now : ℤ) (j : Text) (db : Database)
    → contains j db.m_expiry_times && is_expired now j db ≡ is_expired now j db
unfolding is_expired
expired_key now j db = ground arith

module _ (j : Text) where
  data-expire_all :
      (ks : List Text) (db : Database)
      → find j (expire_all ks db).m_data ≡ (if member j ks then none else find j db.m_data)
  unfolding expire_all member expire
  data-expire_all [] db = refl
  data-expire_all (k ∷ ks) db =
      ground (arith, data-expire_all ks (expire k db), find-erase k j db.m_data)

  times-expire_all :
      (ks : List Text) (db : Database)
      → find j (expire_all ks db).m_expiry_times
        ≡ (if member j ks then none else find j db.m_expiry_times)
  unfolding expire_all member expire
  times-expire_all [] db = refl
  times-expire_all (k ∷ ks) db =
      ground (arith, times-expire_all ks (expire k db), find-erase k j db.m_expiry_times)

module _ (now : ℤ) (j : Text) (db : Database) where
  purged_lem : member j (expired_keys now (Map.keys db.m_expiry_times) db) ≡ is_expired now j db
  purged_lem = ground (
    arith,
    member-expired_keys now j (Map.keys db.m_expiry_times) db,
    member-keys j db.m_expiry_times,
    expired_key now j db,
  )

  -- A deep purge erases the values of exactly the keys that are expired and leaves every other value
  -- as it was.
  pub deep_purge_lem :
      find j (deep_purge now db).m_data ≡ (if is_expired now j db then none else find j db.m_data)
  unfolding deep_purge
  deep_purge_lem =
      ground
        (arith, data-expire_all j (expired_keys now (Map.keys db.m_expiry_times) db) db, purged_lem)

  -- The keys that KEYS answers with are the keys of the map that are not expired.
  pub keys_lem :
      member j (General.keys now db).0 ≡ contains j db.m_data && not (is_expired now j db)
  unfolding General.keys
  keys_lem = ground (arith, member-keys j (deep_purge now db).m_data, deep_purge_lem)

-- How many keys have an expiry time.
abbrev pub timed_keys : Database → ℕ
timed_keys db = length db.m_expiry_times

length-erase : {V : Type 0} (k : Text) (m : Map V) → length (Map.erase k m) ≤ length m
unfolding Map.erase
length-erase k [] = ground arith
length-erase k ((j, v) ∷ m) = ground (arith, length-erase k m)

length-erase_found :
    {V : Type 0} (k : Text) (m : Map V) → contains k m ≡ true → length (Map.erase k m) < length m
unfolding Map.erase find
length-erase_found k [] h = ground arith
length-erase_found k ((j, v) ∷ m) h = ground (arith, length-erase k m, length-erase_found k m)

-- A key is erased only if it had an expiry time.
timed_keys-erase_if_expired :
    (now : ℤ) (k : Text) (db : Database)
    → (if (erase_if_expired now k db).0 then 1 else 0) + timed_keys (erase_if_expired now k db).1
      ≤ timed_keys db
unfolding erase_if_expired expire is_expired
timed_keys-erase_if_expired now k db = ground (arith, length-erase_found k db.m_expiry_times)

timed_keys-purge_sample :
    (now : ℤ) (ks : List Text) (n : ℕ) (db : Database)
    → (purge_sample now ks n db).0 + timed_keys (purge_sample now ks n db).1 ≤ n + timed_keys db
unfolding purge_sample
timed_keys-purge_sample now [] n db = omega arith
timed_keys-purge_sample now (k ∷ ks) n db =
    let r = erase_if_expired now k db in
    ground (
      arith,
      timed_keys-erase_if_expired now k db,
      timed_keys-purge_sample now ks (if r.0 then n + 1 else n) r.1,
    )

zero_div : (n : ℕ) → ◌≤◌ 1 n → 0 / n ≡ 0
zero_div n h = omega arith

-- A shallow purge ends, whatever keys are sampled: at most as many rounds are run as keys have an
-- expiry time, and one more.
pub shallow_purge_ends :
    (fuel : ℕ) (env : Env) (db : Database)
    → length db.m_expiry_times < fuel
    → is_some (shallow_purge fuel env db) ≡ true
unfolding shallow_purge
shallow_purge_ends zero env db h = ground arith
shallow_purge_ends (suc fuel) env db h =
    let all_keys = Map.keys db.m_expiry_times in
    let size = min max_sample_size (length all_keys) in
    let r = purge_sample env.now (env.sample fuel all_keys size) 0 db in
    ground (
      arith,
      shallow_purge_ends fuel env r.1,
      zero_div size,
      timed_keys-purge_sample env.now (env.sample fuel all_keys size) 0 db,
    )

-- ===== src/Database/Expiry/Laws.antt =====
-- Every primitive step of a database keeps it valid, whatever the key, the value and the clock.
use vanity.Base.{ℤ, ◌≡◌, Bool, false, List, [], ◌∷◌, arith}
use vanity.Std.Text.{Text, eq_iff}
use vanity.Std.Map.{find, find-assign, find-erase, find-erase_self}
use vanity.Operations.{Data}
use vanity.Database.{Database, IsStorable, IsValid, put}
use vanity.Database.Expiry.{
  clear_expiry, pre_expire, do_expire, expire, is_expired, erase_if_expired, refresh, refresh_all,
  set_expiry, clear_all_expiry, expiry_enabled, expiry_aware_del, expire_all, deep_purge,
}

module _ (key : Text) {db : Database} (v : IsValid db) where
  pub put-IsValid : (d : Data) → IsStorable d → IsValid (put key d db)
  put-IsValid d s = record {
    timed = λ k h. ground (arith, find-assign key k d db.m_data, v.timed k h);
    stored = λ k x h. ground (arith, find-assign key k d db.m_data, v.stored k x);
  }

  pub clear_expiry-IsValid : IsValid (clear_expiry key db)
  unfolding clear_expiry
  clear_expiry-IsValid = record {
    timed = λ k h. ground (arith, find-erase key k db.m_expiry_times, v.timed k);
    stored = v.stored;
  }

  pub do_expire-IsValid : IsValid (do_expire key db)
  unfolding do_expire
  do_expire-IsValid = record {
    timed = λ k h.
        ground (arith, find-erase key k db.m_expiry_times, find-erase key k db.m_data, v.timed k);
    stored = λ k x h. ground (arith, find-erase key k db.m_data, v.stored k x);
  }

  pub expiry_aware_del-IsValid : IsValid (expiry_aware_del key db).1
  unfolding expiry_aware_del
  expiry_aware_del-IsValid = record {
    timed = λ k h.
        ground (arith, find-erase key k db.m_expiry_times, find-erase key k db.m_data, v.timed k);
    stored = λ k x h. ground (arith, find-erase key k db.m_data, v.stored k x);
  }

module _ {db : Database} (v : IsValid db) where
  pub pre_expire-IsValid : (key : Text) → IsValid (pre_expire key db)
  unfolding pre_expire
  pre_expire-IsValid key = record { timed = v.timed; stored = v.stored }

  pub clear_all_expiry-IsValid : IsValid (clear_all_expiry db)
  unfolding clear_all_expiry find
  clear_all_expiry-IsValid = record { timed = λ k h. ground (arith, v.timed k); stored = v.stored }

  pub expiry_enabled-IsValid : (enable : Bool) → IsValid (expiry_enabled enable db)
  unfolding expiry_enabled
  expiry_enabled-IsValid enable = record { timed = v.timed; stored = v.stored }

  -- Only a key that has a value is given a time.
  pub set_expiry-IsValid : (key : Text) (time : ℤ) → IsValid (set_expiry key time db)
  unfolding set_expiry
  set_expiry-IsValid key time = record {
    timed =
        λ k h. ground (arith, find-assign key k time db.m_expiry_times, v.timed k, eq_iff key k);
    stored = λ k x h. ground (arith, v.stored k x);
  }

pub expire-IsValid : (key : Text) {db : Database} → IsValid db → IsValid (expire key db)
unfolding expire
expire-IsValid key v = do_expire-IsValid key (pre_expire-IsValid v key)

pub erase_if_expired-IsValid :
    (now : ℤ) (key : Text) {db : Database} → IsValid db → IsValid (refresh now key db)
unfolding erase_if_expired
erase_if_expired-IsValid now key {db} v = ground (arith, expire-IsValid key v)

pub refresh_all-IsValid :
    (now : ℤ) (ks : List Text) {db : Database} → IsValid db → IsValid (refresh_all now ks db)
unfolding refresh_all
refresh_all-IsValid now [] v = v
refresh_all-IsValid now (k ∷ ks) v = refresh_all-IsValid now ks (erase_if_expired-IsValid now k v)

pub expire_all-IsValid : (ks : List Text) {db : Database} → IsValid db → IsValid (expire_all ks db)
unfolding expire_all
expire_all-IsValid [] v = v
expire_all-IsValid (k ∷ ks) v = expire_all-IsValid ks (expire-IsValid k v)

pub deep_purge-IsValid : (now : ℤ) {db : Database} → IsValid db → IsValid (deep_purge now db)
unfolding deep_purge
deep_purge-IsValid now v = expire_all-IsValid _ v

-- A key that has been refreshed is not expired any more.
pub is_expired-refresh :
    (now : ℤ) (key : Text) (db : Database) → is_expired now key (refresh now key db) ≡ false
unfolding erase_if_expired is_expired expire
is_expired-refresh now key db = ground (arith, find-erase_self key db.m_expiry_times)

-- Refreshing a key that is not expired changes nothing, whatever values are stored.
pub refresh_fresh :
    (now : ℤ) (key : Text) (db : Database) → is_expired now key db ≡ false → refresh now key db ≡ db
unfolding erase_if_expired
refresh_fresh now key db fresh = ground (arith, fresh)

pub refresh_idem :
    (now : ℤ) (key : Text) (db : Database)
    → refresh now key (refresh now key db) ≡ refresh now key db
refresh_idem now key db = refresh_fresh now key (refresh now key db) (is_expired-refresh now key db)

pub refresh-put :
    (now : ℤ) (key : Text) (d : Data) (db : Database)
    → refresh now key (put key d (refresh now key db)) ≡ put key d (refresh now key db)
unfolding is_expired
refresh-put now key d db =
    refresh_fresh now key (put key d (refresh now key db)) (is_expired-refresh now key db)

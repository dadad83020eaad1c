-- ===== src/Locked/Reads.antt =====
-- The operations that are not logged, at a time when no key has expired.
use vanity.Base.{ℕ, ◌≡◌, refl, ap, false, Option, none, some, List}
use vanity.Std.Map.{find}
use vanity.Operations.{Data, DbOp, should_wal}
use vanity.Database.{Database, Env}
use vanity.Database.Expiry.{get_expiry}
use vanity.Database.General
use vanity.Database.General.{has, get, del, to_same_db, reset}
use vanity.Database.Primitive.{str_len, many_get}
use vanity.Database.ListDatabase.{list_len, list_get}
use vanity.Database.ListDatabase.Ranges.{list_range, range_found, answer}
use vanity.Database.SetDatabase.{set_all, set_len, set_contains}
use vanity.Database.SetDatabase.Algebra.{
  set_union, set_union_len, set_intersection, set_intersection_len, set_difference,
  set_difference_len,
}
use vanity.Database.HashDatabase.{
  hash_all, hash_get, hash_contains, hash_len, hash_key_len, hash_keys, hash_values, hash_many_get,
}
use vanity.Locked.{Reply, list_value, attempt, run}
use vanity.Locked.Quiet.{IsQuiet, refresh_quiet, refresh_all_quiet}
use vanity.Locked.Valid.{Ends}
use vanity.Locked.Recovery.{deep_purge_quiet, get_each_quiet}

module _ (env : Env) (db : Database) (q : IsQuiet env.now db) where
  answer-same :
      {A : Type 0} (f : A → Reply) (o : Option A)
      → Ends (λ d. d ≡ db) (attempt f (answer {B = A × Database} (λ r. (r, db)) o))
  answer-same f none = tt
  answer-same f (some a) = refl

  -- An operation that is not logged changes nothing.
  pub run-reads :
      (trn : ℕ) (op : DbOp) → should_wal op ≡ false → Ends (λ d. d ≡ db) (run env trn op db)
  unfolding run should_wal has get General.type General.keys get_expiry str_len many_get list_len
      list_get list_range set_all set_len set_contains set_union set_union_len set_intersection
      set_intersection_len set_difference set_difference_len hash_all hash_get hash_contains
      hash_len hash_key_len hash_keys hash_values hash_many_get
  run-reads trn DbOp.keys h = deep_purge_quiet env.now db q
  run-reads trn (DbOp.has key) h = refresh_quiet env.now key db q
  run-reads trn (DbOp.get key) h = refresh_quiet env.now key db q
  run-reads trn (DbOp.type key) h = refresh_quiet env.now key db q
  run-reads trn (DbOp.get_expiry key) h = refresh_quiet env.now key db q
  run-reads trn (DbOp.str_len key) h = refresh_quiet env.now key db q
  run-reads trn (DbOp.many_get ks) h =
      rw (refresh_all_quiet env.now ks db q)
        (ap (λ (r : List (Option Data) × Database). r.1) (get_each_quiet env.now ks db q))
  run-reads trn (DbOp.list_len key) h = refresh_quiet env.now key db q
  run-reads trn (DbOp.list_get key index) h =
      rw (refresh_quiet env.now key db q) (refresh_quiet env.now key db q)
  run-reads trn (DbOp.list_range key start end) h =
      rw (refresh_quiet env.now key db q)
        (answer-same list_value (range_found (find key db.m_data) start end))
  run-reads trn (DbOp.set_all key) h = refresh_quiet env.now key db q
  run-reads trn (DbOp.set_len key) h = refresh_quiet env.now key db q
  run-reads trn (DbOp.set_contains key x) h = refresh_quiet env.now key db q
  run-reads trn (DbOp.set_union ks) h = refresh_all_quiet env.now ks db q
  run-reads trn (DbOp.set_union_len ks) h = refresh_all_quiet env.now ks db q
  run-reads trn (DbOp.set_intersection ks) h = refresh_all_quiet env.now ks db q
  run-reads trn (DbOp.set_intersection_len ks) h = refresh_all_quiet env.now ks db q
  run-reads trn (DbOp.set_difference key1 key2) h =
      rw (refresh_quiet env.now key1 db q) (refresh_quiet env.now key2 db q)
  run-reads trn (DbOp.set_difference_len key1 key2) h =
      rw (refresh_quiet env.now key1 db q) (refresh_quiet env.now key2 db q)
  run-reads trn (DbOp.hash_all key) h = refresh_quiet env.now key db q
  run-reads trn (DbOp.hash_get key field) h = refresh_quiet env.now key db q
  run-reads trn (DbOp.hash_contains key field) h = refresh_quiet env.now key db q
  run-reads trn (DbOp.hash_len key) h = refresh_quiet env.now key db q
  run-reads trn (DbOp.hash_key_len key field) h = refresh_quiet env.now key db q
  run-reads trn (DbOp.hash_keys key) h = refresh_quiet env.now key db q
  run-reads trn (DbOp.hash_values key) h = refresh_quiet env.now key db q
  run-reads trn (DbOp.hash_many_get key fields) h = refresh_quiet env.now key db q
  run-reads trn _ h = cc

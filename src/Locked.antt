-- ===== src/Locked.antt =====
-- vanity/db/db/locked_database.cpp: an operation is logged, if it may change the database, and then
-- run on the database, all under one lock; and the redo of a logged operation.
pub mod Valid
pub mod Quiet
pub mod Redo
pub mod Recovery
pub mod Reads
pub mod Replay
pub mod Lost
use vanity.Base.{
  ℕ, ℤ, Bool, true, false, Option, none, some, List, [], ◌∷◌, ◌++◌, ◌==◌, if◌then◌else◌,
}
use vanity.Std.Text.{Text}
use vanity.Std.Map.{Map}
use vanity.Std.Set.{Set}
use vanity.Operations.{Data, DbOp, should_wal, WalEntry}
use vanity.Database.{Database, Env}
use vanity.Database.Expiry.{
  clear_expiry, set_expiry, get_expiry, clear_all_expiry, force_expire, expiry_enabled, deep_purge,
}
use vanity.Database.General
use vanity.Database.General.{has, get, reset, del, copy_to, move_to, to_same_db}
use vanity.Database.Primitive.{str_set, int_set, float_set, incr_int, incr_float, str_len, many_get}
use vanity.Database.ListDatabase
use vanity.Database.ListDatabase.{
  list_len, list_get, list_set, list_push_left, list_push_right, list_pop_left, list_pop_right,
}
use vanity.Database.ListDatabase.Ranges.{list_range, list_trim, list_remove}
use vanity.Database.SetDatabase.{
  set_add, set_all, set_len, set_contains, set_remove, set_discard, set_move,
}
use vanity.Database.SetDatabase.Algebra.{
  set_union, set_union_into, set_union_len, set_intersection, set_intersection_into,
  set_intersection_len, set_difference, set_difference_into, set_difference_len,
}
use vanity.Database.HashDatabase
use vanity.Database.HashDatabase.{
  hash_set, hash_all, hash_get, hash_contains, hash_len, hash_key_len, hash_remove, hash_keys,
  hash_values, hash_update, hash_many_get,
}

-- The return types of the methods.
pub data Reply : Type 0 where
  unit : Reply
  trn_id : ℕ → Reply
  bool : Bool → Reply
  key_list : List Text → Reply
  value : Option Data → Reply
  values : List (Option Data) → Reply
  type_index str_size float set_size : Option ℕ → Reply
  int time : Option ℤ → Reply
  list_size : ListDatabase.Answer ℕ → Reply
  list_text : ListDatabase.Answer Text → Reply
  list_value : ListDatabase.Answer (List Text) → Reply
  set_value : Option Set → Reply
  set_bool : Option Bool → Reply
  hash_value : HashDatabase.Answer (Map Text) → Reply
  hash_text : HashDatabase.Answer Text → Reply
  hash_bool : HashDatabase.Answer Bool → Reply
  hash_size : HashDatabase.Answer ℕ → Reply
  hash_list : HashDatabase.Answer (List Text) → Reply
  hash_options : HashDatabase.Answer (List (Option Text)) → Reply

-- How a call ends: it returns, it throws, its behaviour is undefined, or it goes on in another
-- database, with both locked (copy_to_db and move_to_db of vanity.Database.General).
pub data Outcome : Type 0 where
  done : Reply → Database → Outcome
  throws : Outcome
  undefined : Outcome
  elsewhere : ℕ → Outcome

abbrev pub reply : {A : Type 0} → (A → Reply) → A × Database → Outcome
reply f (a, db) = done (f a) db

abbrev pub attempt : {A : Type 0} → (A → Reply) → Option (A × Database) → Outcome
attempt f none = undefined
attempt f (some (a, db)) = done (f a) db

abbrev pub transfer : ℕ → Bool × Database → Database → Outcome
transfer to r db = if to == db.m_index then reply bool r else elsewhere to

-- The method of Database behind each operation. The transactions are not implemented: begin returns
-- its argument, commit and discard do nothing. There is no method for many_set.
unfoldable pub run : Env → ℕ → DbOp → Database → Outcome
run env trn DbOp.begin db = done (trn_id trn) db
run env trn DbOp.commit db = done unit db
run env trn DbOp.discard db = done unit db
run env trn DbOp.many_set db = throws
run env trn DbOp.reset db = done unit (reset db)
run env trn DbOp.clear_all_expiry db = done unit (clear_all_expiry db)
run env trn DbOp.keys db = reply key_list (General.keys env.now db)
run env trn (DbOp.has key) db = reply bool (has env.now key db)
run env trn (DbOp.del key) db = reply bool (del key db)
run env trn (DbOp.get key) db = reply value (get env.now key db)
run env trn (DbOp.type key) db = reply type_index (General.type env.now key db)
run env trn (DbOp.copy_to from to) db = reply bool (copy_to env.now from to db)
run env trn (DbOp.move_to from to) db = reply bool (move_to env.now from to db)
run env trn (DbOp.clear_expiry key) db = done unit (clear_expiry key db)
run env trn (DbOp.set_expiry key t) db = done unit (set_expiry key t db)
run env trn (DbOp.get_expiry key) db = reply time (get_expiry env.now key db)
run env trn (DbOp.str_set key v) db = done unit (str_set key v db)
run env trn (DbOp.int_set key v) db = done unit (int_set key v db)
run env trn (DbOp.float_set key v) db = done unit (float_set key v db)
run env trn (DbOp.incr_int key v) db = attempt int (incr_int env.now key v db)
run env trn (DbOp.incr_float key v) db = reply float (incr_float env key v db)
run env trn (DbOp.str_len key) db = reply str_size (str_len env.now key db)
run env trn (DbOp.many_get ks) db = reply values (many_get env.now ks db)
run env trn (DbOp.list_len key) db = reply list_size (list_len env.now key db)
run env trn (DbOp.list_get key index) db = reply list_text (list_get env.now key index db)
run env trn (DbOp.list_set key index v) db = reply list_text (list_set env.now key index v db)
run env trn (DbOp.list_push_left key vs) db = reply list_size (list_push_left env.now key vs db)
run env trn (DbOp.list_push_right key vs) db = reply list_size (list_push_right env.now key vs db)
run env trn (DbOp.list_pop_left key n) db = reply list_value (list_pop_left env.now key n db)
run env trn (DbOp.list_pop_right key n) db = reply list_value (list_pop_right env.now key n db)
run env trn (DbOp.list_range key start end) db =
    attempt list_value (list_range env.now key start end db)
run env trn (DbOp.list_trim key start end) db =
    attempt list_size (list_trim env.now key start end db)
run env trn (DbOp.list_remove key element count) db =
    attempt list_size (list_remove env.now key element count db)
run env trn (DbOp.set_add key vs) db = reply set_size (set_add env.now key vs db)
run env trn (DbOp.set_all key) db = reply set_value (set_all env.now key db)
run env trn (DbOp.set_remove key count) db = reply set_value (set_remove env key count db)
run env trn (DbOp.set_discard key vs) db = attempt set_size (set_discard env.now key vs db)
run env trn (DbOp.set_len key) db = reply set_size (set_len env.now key db)
run env trn (DbOp.set_contains key v) db = reply set_bool (set_contains env.now key v db)
run env trn (DbOp.set_move source dest v) db = reply set_bool (set_move env.now source dest v db)
run env trn (DbOp.set_union ks) db = reply set_value (set_union env.now ks db)
run env trn (DbOp.set_union_into dest ks) db = reply set_size (set_union_into env.now dest ks db)
run env trn (DbOp.set_union_len ks) db = reply set_size (set_union_len env.now ks db)
run env trn (DbOp.set_intersection ks) db = reply set_value (set_intersection env.now ks db)
run env trn (DbOp.set_intersection_into dest ks) db =
    reply set_size (set_intersection_into env.now dest ks db)
run env trn (DbOp.set_intersection_len ks) db = reply set_size (set_intersection_len env.now ks db)
run env trn (DbOp.set_difference key1 key2) db =
    reply set_value (set_difference env.now key1 key2 db)
run env trn (DbOp.set_difference_into dest key1 key2) db =
    reply set_size (set_difference_into env.now dest key1 key2 db)
run env trn (DbOp.set_difference_len key1 key2) db =
    reply set_size (set_difference_len env.now key1 key2 db)
run env trn (DbOp.hash_set key vs) db = done unit (hash_set key vs db)
run env trn (DbOp.hash_all key) db = reply hash_value (hash_all env.now key db)
run env trn (DbOp.hash_get key field) db = reply hash_text (hash_get env.now key field db)
run env trn (DbOp.hash_contains key field) db = reply hash_bool (hash_contains env.now key field db)
run env trn (DbOp.hash_len key) db = reply hash_size (hash_len env.now key db)
run env trn (DbOp.hash_key_len key field) db = reply hash_size (hash_key_len env.now key field db)
run env trn (DbOp.hash_remove key fields) db = attempt hash_size (hash_remove env.now key fields db)
run env trn (DbOp.hash_keys key) db = reply hash_list (hash_keys env.now key db)
run env trn (DbOp.hash_values key) db = reply hash_list (hash_values env.now key db)
run env trn (DbOp.hash_update key vs) db = attempt hash_size (hash_update env.now key vs db)
run env trn (DbOp.hash_many_get key fields) db =
    reply hash_options (hash_many_get env.now key fields db)
run env trn (DbOp.copy_to_db key to) db = transfer to (to_same_db env.now key db) db
run env trn (DbOp.move_to_db key to) db = transfer to (to_same_db env.now key db) db

-- wal_log
unfoldable pub wal_log : ℕ → DbOp → Database → Database
unfolding should_wal
wal_log trn op db =
    if should_wal op then record db { wal = db.wal ++ WalEntry.db_op trn op ∷ [] } else db

-- The methods of LockedDatabase.
unfoldable pub execute : Env → ℕ → DbOp → Database → Outcome
unfolding wal_log
execute env trn op db = run env trn op (wal_log trn op db)

-- wal_redo_db_op: an operation that is never logged is an error, as is many_set.
unfoldable pub wal_redo_db_op : Env → ℕ → DbOp → Database → Outcome
unfolding should_wal
wal_redo_db_op env trn op db = if should_wal op then run env trn op db else throws

-- wal_redo_expiry
unfoldable pub wal_redo_expiry : Text → Database → Database
unfolding force_expire
wal_redo_expiry key db = force_expire key db

-- One round of the loop of PersistJournalServer::do_recover.
unfoldable pub redo_entry : Env → WalEntry → Database → Outcome
unfolding wal_redo_db_op wal_redo_expiry
redo_entry env (WalEntry.db_op trn op) db = wal_redo_db_op env trn op db
redo_entry env (WalEntry.expire key) db = done unit (wal_redo_expiry key db)

abbrev pub and_then : Outcome → (Database → Outcome) → Outcome
and_then (done r db) f = f db
and_then throws f = throws
and_then undefined f = undefined
and_then (elsewhere n) f = elsewhere n

-- PersistJournalServer::do_recover, over the entries of this database
unfoldable pub do_recover : Env → List WalEntry → Database → Outcome
unfolding redo_entry
do_recover env [] db = done unit db
do_recover env (e ∷ es) db = and_then (redo_entry env e db) (do_recover env es)

-- PersistJournalServer::recover, for this database: the entries are redone with expiry disabled, and
-- the keys that have expired by then are purged.
unfoldable pub recover : Env → List WalEntry → Database → Outcome
unfolding do_recover expiry_enabled
recover env es db =
    and_then (do_recover env es (expiry_enabled false db))
      (λ d. done unit (deep_purge env.now (expiry_enabled true d)))

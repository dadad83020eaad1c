-- ===== src/Locked/Valid.antt =====
-- Every method of LockedDatabase keeps the database valid, whatever its arguments.
use vanity.Base.{
  ℕ, ℤ, Bool, true, false, Option, none, some, List, [], ◌∷◌, ◌++◌, arith, if◌then◌else◌,
}
use vanity.Std.Text.{Text}
use vanity.Operations.{string_t, int_t, float_t, DbOp, should_wal, WalEntry}
use vanity.Database.{Database, Env, IsValid}
use vanity.Database.Expiry.{get_expiry, refresh, force_expire}
use vanity.Database.Expiry.Laws.{
  clear_expiry-IsValid, expiry_aware_del-IsValid, clear_all_expiry-IsValid, set_expiry-IsValid,
  erase_if_expired-IsValid, refresh_all-IsValid, deep_purge-IsValid, do_expire-IsValid,
}
use vanity.Database.General
use vanity.Database.General.{has, get, del, to_same_db}
use vanity.Database.Primitive.{str_set, int_set, float_set, str_len, incr_int}
use vanity.Database.Valid.{
  Keeps, put_clear-IsValid, copy_to-IsValid, move_to-IsValid, reset-IsValid, incr_int-Keeps,
  incr_float-IsValid, many_get-IsValid,
}
use vanity.Database.ListDatabase.{list_len, list_get}
use vanity.Database.ListDatabase.Ranges.{list_range, list_trim, list_remove, range_found, answer}
use vanity.Database.ListDatabase.Valid.{
  list_set-IsValid, list_push_left-IsValid, list_push_right-IsValid, list_pop_left-IsValid,
  list_pop_right-IsValid, list_trim-Keeps, list_remove-Keeps,
}
use vanity.Database.SetDatabase.{set_all, set_len, set_contains, set_discard}
use vanity.Database.SetDatabase.Valid.{
  set_add-IsValid, set_discard-Keeps, set_move-IsValid, set_remove-IsValid,
}
use vanity.Database.SetDatabase.Algebra.{
  set_union, set_union_len, set_intersection, set_intersection_len, set_difference,
  set_difference_len,
}
use vanity.Database.SetDatabase.AlgebraValid.{
  set_union_into-IsValid, set_intersection_into-IsValid, set_difference_into-IsValid,
}
use vanity.Database.HashDatabase.{
  hash_all, hash_get, hash_contains, hash_len, hash_key_len, hash_keys, hash_values, hash_many_get,
  hash_remove, hash_update,
}
use vanity.Database.HashDatabase.Valid.{hash_set-IsValid, hash_remove-Keeps, hash_update-Keeps}
use vanity.Std.Map.{find}
use vanity.Locked.{
  Reply, Outcome, done, throws, undefined, elsewhere, attempt, transfer, run, wal_log, execute,
  redo_entry, and_then, do_recover, wal_redo_db_op, wal_redo_expiry, list_value, list_size,
  set_size, hash_size, int,
}

-- The state that a call returns with, if it does, has the property.
abbrev pub Ends {ℓ} : (Database → Type ℓ) → Outcome → Type ℓ
Ends P (done r db) = P db
Ends P _ = Unit

attempt-Ends :
    {A : Type 0} (f : A → Reply) (o : Option (A × Database)) → Keeps o → Ends IsValid (attempt f o)
attempt-Ends f none h = tt
attempt-Ends f (some (a, db)) h = h

answer-Keeps :
    {A : Type 0} (o : Option A) {db : Database}
    → IsValid db
    → Keeps (answer {B = A × Database} (λ r. (r, db)) o)
answer-Keeps none v = tt
answer-Keeps (some a) v = v

list_range-Keeps :
    (now : ℤ) (key : Text) {db : Database}
    → IsValid db
    → (start end : ℤ) → Keeps (list_range now key start end db)
unfolding list_range
list_range-Keeps now key {db} v start end =
    answer-Keeps (range_found (find key (refresh now key db).m_data) start end)
      (erase_if_expired-IsValid now key v)

transfer-Ends :
    (to : ℕ) (r : Bool × Database) (db : Database) → IsValid r.1 → Ends IsValid (transfer to r db)
transfer-Ends to r db v = ground arith

-- The method of Database behind an operation keeps a valid database valid.
run-IsValid :
    (env : Env) (trn : ℕ) (op : DbOp) {db : Database}
    → IsValid db
    → Ends IsValid (run env trn op db)
unfolding run has get del General.type General.keys get_expiry str_set int_set float_set str_len
    list_len list_get set_all set_len set_contains set_union set_union_len set_intersection
    set_intersection_len set_difference set_difference_len hash_all hash_get hash_contains hash_len
    hash_key_len hash_keys hash_values hash_many_get to_same_db
run-IsValid env trn DbOp.begin {db} v = v
run-IsValid env trn DbOp.commit {db} v = v
run-IsValid env trn DbOp.discard {db} v = v
run-IsValid env trn DbOp.many_set {db} v = tt
run-IsValid env trn DbOp.reset {db} v = reset-IsValid db
run-IsValid env trn DbOp.clear_all_expiry {db} v = clear_all_expiry-IsValid v
run-IsValid env trn DbOp.keys {db} v = deep_purge-IsValid env.now v
run-IsValid env trn (DbOp.has key) {db} v = erase_if_expired-IsValid env.now key v
run-IsValid env trn (DbOp.del key) {db} v = expiry_aware_del-IsValid key v
run-IsValid env trn (DbOp.get key) {db} v = erase_if_expired-IsValid env.now key v
run-IsValid env trn (DbOp.type key) {db} v = erase_if_expired-IsValid env.now key v
run-IsValid env trn (DbOp.copy_to from to) {db} v = copy_to-IsValid env.now from to v
run-IsValid env trn (DbOp.move_to from to) {db} v = move_to-IsValid env.now from to v
run-IsValid env trn (DbOp.clear_expiry key) {db} v = clear_expiry-IsValid key v
run-IsValid env trn (DbOp.set_expiry key t) {db} v = set_expiry-IsValid v key t
run-IsValid env trn (DbOp.get_expiry key) {db} v = erase_if_expired-IsValid env.now key v
run-IsValid env trn (DbOp.str_set key x) {db} v = put_clear-IsValid key (string_t x) tt v
run-IsValid env trn (DbOp.int_set key x) {db} v = put_clear-IsValid key (int_t x) tt v
run-IsValid env trn (DbOp.float_set key x) {db} v = put_clear-IsValid key (float_t x) tt v
run-IsValid env trn (DbOp.incr_int key x) {db} v =
    attempt-Ends int (incr_int env.now key x db) (incr_int-Keeps env.now key x v)
run-IsValid env trn (DbOp.incr_float key x) {db} v = incr_float-IsValid env key x v
run-IsValid env trn (DbOp.str_len key) {db} v = erase_if_expired-IsValid env.now key v
run-IsValid env trn (DbOp.many_get ks) {db} v = many_get-IsValid env.now ks v
run-IsValid env trn (DbOp.list_len key) {db} v = erase_if_expired-IsValid env.now key v
run-IsValid env trn (DbOp.list_get key index) {db} v =
    erase_if_expired-IsValid env.now key (erase_if_expired-IsValid env.now key v)
run-IsValid env trn (DbOp.list_set key index x) {db} v = list_set-IsValid env.now key v index x
run-IsValid env trn (DbOp.list_push_left key xs) {db} v = list_push_left-IsValid env.now key v xs
run-IsValid env trn (DbOp.list_push_right key xs) {db} v = list_push_right-IsValid env.now key v xs
run-IsValid env trn (DbOp.list_pop_left key n) {db} v = list_pop_left-IsValid env.now key v n
run-IsValid env trn (DbOp.list_pop_right key n) {db} v = list_pop_right-IsValid env.now key v n
run-IsValid env trn (DbOp.list_range key start end) {db} v =
    attempt-Ends list_value (list_range env.now key start end db)
      (list_range-Keeps env.now key v start end)
run-IsValid env trn (DbOp.list_trim key start end) {db} v =
    attempt-Ends list_size (list_trim env.now key start end db)
      (list_trim-Keeps env.now key v start end)
run-IsValid env trn (DbOp.list_remove key element count) {db} v =
    attempt-Ends list_size (list_remove env.now key element count db)
      (list_remove-Keeps env.now key v element count)
run-IsValid env trn (DbOp.set_add key xs) {db} v = set_add-IsValid env.now key v xs
run-IsValid env trn (DbOp.set_all key) {db} v = erase_if_expired-IsValid env.now key v
run-IsValid env trn (DbOp.set_remove key count) {db} v = set_remove-IsValid env key count v
run-IsValid env trn (DbOp.set_discard key xs) {db} v =
    attempt-Ends set_size (set_discard env.now key xs db) (set_discard-Keeps env.now key v xs)
run-IsValid env trn (DbOp.set_len key) {db} v = erase_if_expired-IsValid env.now key v
run-IsValid env trn (DbOp.set_contains key x) {db} v = erase_if_expired-IsValid env.now key v
run-IsValid env trn (DbOp.set_move source dest x) {db} v = set_move-IsValid env.now source v dest x
run-IsValid env trn (DbOp.set_union ks) {db} v = refresh_all-IsValid env.now ks v
run-IsValid env trn (DbOp.set_union_into dest ks) {db} v = set_union_into-IsValid env.now dest v ks
run-IsValid env trn (DbOp.set_union_len ks) {db} v = refresh_all-IsValid env.now ks v
run-IsValid env trn (DbOp.set_intersection ks) {db} v = refresh_all-IsValid env.now ks v
run-IsValid env trn (DbOp.set_intersection_into dest ks) {db} v =
    set_intersection_into-IsValid env.now dest v ks
run-IsValid env trn (DbOp.set_intersection_len ks) {db} v = refresh_all-IsValid env.now ks v
run-IsValid env trn (DbOp.set_difference key1 key2) {db} v =
    erase_if_expired-IsValid env.now key2 (erase_if_expired-IsValid env.now key1 v)
run-IsValid env trn (DbOp.set_difference_into dest key1 key2) {db} v =
    set_difference_into-IsValid env.now dest v key1 key2
run-IsValid env trn (DbOp.set_difference_len key1 key2) {db} v =
    erase_if_expired-IsValid env.now key2 (erase_if_expired-IsValid env.now key1 v)
run-IsValid env trn (DbOp.hash_set key xs) {db} v = hash_set-IsValid key xs v
run-IsValid env trn (DbOp.hash_all key) {db} v = erase_if_expired-IsValid env.now key v
run-IsValid env trn (DbOp.hash_get key field) {db} v = erase_if_expired-IsValid env.now key v
run-IsValid env trn (DbOp.hash_contains key field) {db} v = erase_if_expired-IsValid env.now key v
run-IsValid env trn (DbOp.hash_len key) {db} v = erase_if_expired-IsValid env.now key v
run-IsValid env trn (DbOp.hash_key_len key field) {db} v = erase_if_expired-IsValid env.now key v
run-IsValid env trn (DbOp.hash_remove key fields) {db} v =
    attempt-Ends hash_size (hash_remove env.now key fields db)
      (hash_remove-Keeps env.now key v fields)
run-IsValid env trn (DbOp.hash_keys key) {db} v = erase_if_expired-IsValid env.now key v
run-IsValid env trn (DbOp.hash_values key) {db} v = erase_if_expired-IsValid env.now key v
run-IsValid env trn (DbOp.hash_update key xs) {db} v =
    attempt-Ends hash_size (hash_update env.now key xs db) (hash_update-Keeps env.now key v xs)
run-IsValid env trn (DbOp.hash_many_get key fields) {db} v = erase_if_expired-IsValid env.now key v
run-IsValid env trn (DbOp.copy_to_db key to) {db} v =
    transfer-Ends to (to_same_db env.now key db) db (erase_if_expired-IsValid env.now key v)
run-IsValid env trn (DbOp.move_to_db key to) {db} v =
    transfer-Ends to (to_same_db env.now key db) db (erase_if_expired-IsValid env.now key v)

wal_log-IsValid : (trn : ℕ) (op : DbOp) {db : Database} → IsValid db → IsValid (wal_log trn op db)
unfolding wal_log
wal_log-IsValid trn op {db} v = go (should_wal op)
  where
    go :
        (b : Bool)
        → IsValid (if b then record db { wal = db.wal ++ WalEntry.db_op trn op ∷ [] } else db)
    go true = record { timed = v.timed; stored = v.stored }
    go false = v

-- A method of LockedDatabase, called on a valid database with any arguments, at any time and with
-- any random draws, leaves a valid database when it returns: every expiry time belongs to a key of the
-- map, every list in the map has an element, and no set in it holds an element twice.
pub execute-IsValid :
    (env : Env) (trn : ℕ) (op : DbOp) {db : Database}
    → IsValid db
    → Ends IsValid (execute env trn op db)
unfolding execute
execute-IsValid env trn op v = run-IsValid env trn op (wal_log-IsValid trn op v)

force_expire-IsValid : (key : Text) {db : Database} → IsValid db → IsValid (force_expire key db)
unfolding force_expire
force_expire-IsValid key v = do_expire-IsValid key v

redo_entry-IsValid :
    (env : Env) (e : WalEntry) {db : Database} → IsValid db → Ends IsValid (redo_entry env e db)
unfolding redo_entry wal_redo_db_op wal_redo_expiry
redo_entry-IsValid env (WalEntry.db_op trn op) {db} v = go (should_wal op)
  where
    go : (b : Bool) → Ends IsValid (if b then run env trn op db else throws)
    go true = run-IsValid env trn op v
    go false = tt
redo_entry-IsValid env (WalEntry.expire key) v = force_expire-IsValid key v

and_then-Ends :
    (o : Outcome) (f : Database → Outcome)
    → ((db : Database) → IsValid db → Ends IsValid (f db))
    → Ends IsValid o
    → Ends IsValid (and_then o f)
and_then-Ends (done r db) f g h = g db h
and_then-Ends throws f g h = tt
and_then-Ends undefined f g h = tt
and_then-Ends (elsewhere n) f g h = tt

-- The recovery of a log, whatever entries it holds, on a valid database leaves a valid database when
-- it returns.
pub do_recover-IsValid :
    (env : Env) (es : List WalEntry) {db : Database}
    → IsValid db
    → Ends IsValid (do_recover env es db)
unfolding do_recover
do_recover-IsValid env [] v = v
do_recover-IsValid env (e ∷ es) {db} v =
    and_then-Ends (redo_entry env e db) (do_recover env es) (λ db' h. do_recover-IsValid env es h)
      (redo_entry-IsValid env e v)

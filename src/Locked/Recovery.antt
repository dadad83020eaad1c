-- ===== src/Locked/Recovery.antt =====
-- The write-ahead log and its replay: LockedDatabase, and PersistJournalServer::do_recover of
-- vanity/db/wal/persist_journal_server.cpp.
use vanity.Base.{ℕ, ℤ, ◌≡◌, refl, ap, ◌∙◌, Bool, Option, none, some, List, [], ◌∷◌, arith}
use vanity.Std.Text.{Text}
use vanity.Std.Map
use vanity.Std.Map.{Map, find}
use vanity.Operations.{Data, DbOp, WalEntry}
use vanity.Database.{Database, Env}
use vanity.Database.Expiry.{
  clear_expiry, clear_all_expiry, get_expiry, expired_keys, expire_all, deep_purge,
}
use vanity.Database.General
use vanity.Database.General.{has, get, del, to_same_db, reset}
use vanity.Database.Primitive.{
  str_set, int_set, float_set, incr_int, incr_float, str_len, get_each, many_get,
}
use vanity.Database.ListDatabase.{list_len, list_get}
use vanity.Database.ListDatabase.Ranges.{list_range, range_found, list_trim, list_remove, answer}
use vanity.Database.SetDatabase.{set_all, set_len, set_contains, set_discard}
use vanity.Database.SetDatabase.Algebra.{
  set_union, set_union_len, set_intersection, set_intersection_len, set_difference,
  set_difference_len,
}
use vanity.Database.HashDatabase.{
  hash_set, hash_all, hash_get, hash_contains, hash_len, hash_key_len, hash_keys, hash_values,
  hash_many_get, hash_remove, hash_update,
}
use vanity.Locked.{
  Reply, unit, int, list_value, bool, float, set_size, list_size, list_text, set_bool, hash_size,
  Outcome, done, throws, undefined, elsewhere, reply, attempt, transfer, run,
}
use vanity.Locked.Quiet.{
  aside, on_option, IsQuiet, refresh_quiet, refresh_all_quiet, set_expiry-aside,
  incr_float_found-aside,
}
use vanity.Locked.Redo.{
  copy_to-redo, move_to-redo, incr_int-redo, list_set-redo, list_push_left-redo,
  list_push_right-redo, list_pop_left-redo, list_pop_right-redo, list_trim-redo, list_remove-redo,
  set_add-redo, set_discard-redo, set_move-redo, set_union_into-redo, set_intersection_into-redo,
  set_difference_into-redo, hash_remove-redo, hash_update-redo,
}

abbrev pub on_state : (Database → Database) → Outcome → Outcome
on_state f (done r db) = done r (f db)
on_state f throws = throws
on_state f undefined = undefined
on_state f (elsewhere n) = elsewhere n

-- The elements that SET_REMOVE takes are drawn at random, and drawn again by its redo.
abbrev pub IsRepeatable : DbOp → Type 0
IsRepeatable (DbOp.set_remove key count) = ⊥
IsRepeatable _ = Unit

expired_keys_quiet :
    (now : ℤ) (ks : List Text) (db : Database) → IsQuiet now db → expired_keys now ks db ≡ []
unfolding expired_keys
expired_keys_quiet now [] db q = refl
expired_keys_quiet now (k ∷ ks) db q = ground (arith, q k, expired_keys_quiet now ks db q)

pub deep_purge_quiet : (now : ℤ) (db : Database) → IsQuiet now db → deep_purge now db ≡ db
unfolding deep_purge expire_all
deep_purge_quiet now db q = rw (expired_keys_quiet now (Map.keys db.m_expiry_times) db q)

abbrev pub found_each : List Text → Map Data → List (Option Data)
found_each [] m = []
found_each (k ∷ ks) m = find k m ∷ found_each ks m

pub get_each_quiet :
    (now : ℤ) (ks : List Text) (db : Database)
    → IsQuiet now db
    → get_each now ks db ≡ (found_each ks db.m_data, db)
unfolding get_each
get_each_quiet now [] db q = refl
get_each_quiet now (k ∷ ks) db q = rw (refresh_quiet now k db q) (rw (get_each_quiet now ks db q))

module _ (e : Bool) (w : List WalEntry) where
  attempt-aside :
      {A : Type 0} (f : A → Reply) (o : Option (A × Database))
      → attempt f (on_option (aside e w) o) ≡ on_state (aside e w) (attempt f o)
  attempt-aside f none = refl
  attempt-aside f (some (a, db)) = refl

  answer-aside :
      {A : Type 0} (f : A → Reply) (o : Option A) (db : Database)
      → attempt f (answer {B = A × Database} (λ r. (r, aside e w db)) o)
        ≡ on_state (aside e w) (attempt f (answer {B = A × Database} (λ r. (r, db)) o))
  answer-aside f none db = refl
  answer-aside f (some a) db = refl

  transfer-aside :
      (to : ℕ) (b : Bool) (db : Database)
      → transfer to (b, aside e w db) (aside e w db) ≡ on_state (aside e w) (transfer to (b, db) db)
  transfer-aside to b db = ground arith

module _ (env env' : Env) (f : env'.float_add ≡ env.float_add) (e : Bool) (w : List WalEntry)
    (db : Database) (q : IsQuiet env.now db) (q' : IsQuiet env'.now (aside e w db)) where
  -- Run at two times when no key has expired, an operation does the same.
  pub run-redo :
      (trn : ℕ) (op : DbOp)
      → IsRepeatable op
      → run env' trn op (aside e w db) ≡ on_state (aside e w) (run env trn op db)
  unfolding run has get del General.type General.keys get_expiry reset clear_expiry clear_all_expiry
      str_set int_set float_set hash_set incr_float str_len many_get list_len list_get list_range
      set_all set_len set_contains set_union set_union_len set_intersection set_intersection_len
      set_difference set_difference_len hash_all hash_get hash_contains hash_len hash_key_len
      hash_keys hash_values hash_many_get to_same_db
  run-redo trn DbOp.begin s = refl
  run-redo trn DbOp.commit s = refl
  run-redo trn DbOp.discard s = refl
  run-redo trn DbOp.many_set s = refl
  run-redo trn DbOp.reset s = refl
  run-redo trn DbOp.clear_all_expiry s = refl
  run-redo trn DbOp.keys s =
      rw (deep_purge_quiet env'.now (aside e w db) q', deep_purge_quiet env.now db q)
  run-redo trn (DbOp.has key) s =
      rw (refresh_quiet env'.now key (aside e w db) q', refresh_quiet env.now key db q)
  run-redo trn (DbOp.del key) s = refl
  run-redo trn (DbOp.get key) s =
      rw (refresh_quiet env'.now key (aside e w db) q', refresh_quiet env.now key db q)
  run-redo trn (DbOp.type key) s =
      rw (refresh_quiet env'.now key (aside e w db) q', refresh_quiet env.now key db q)
  run-redo trn (DbOp.copy_to from to) s =
      ap (reply bool) (copy_to-redo e w env.now env'.now db q q' from to)
  run-redo trn (DbOp.move_to from to) s =
      ap (reply bool) (move_to-redo e w env.now env'.now db q q' from to)
  run-redo trn (DbOp.clear_expiry key) s = refl
  run-redo trn (DbOp.set_expiry key t) s = ap (done unit) (set_expiry-aside e w key t db)
  run-redo trn (DbOp.get_expiry key) s =
      rw (refresh_quiet env'.now key (aside e w db) q', refresh_quiet env.now key db q)
  run-redo trn (DbOp.str_set key x) s = refl
  run-redo trn (DbOp.int_set key x) s = refl
  run-redo trn (DbOp.float_set key x) s = refl
  run-redo trn (DbOp.incr_int key x) s =
      ap (attempt int) (incr_int-redo e w env.now env'.now db q q' key x)
      ∙ attempt-aside e w int (incr_int env.now key x db)
  run-redo trn (DbOp.incr_float key x) s =
      rw (refresh_quiet env'.now key (aside e w db) q', refresh_quiet env.now key db q)
        (ap (reply float) (incr_float_found-aside e w env env' (find key db.m_data) key x db f))
  run-redo trn (DbOp.str_len key) s =
      rw (refresh_quiet env'.now key (aside e w db) q', refresh_quiet env.now key db q)
  run-redo trn (DbOp.many_get ks) s =
      rw (refresh_all_quiet env'.now ks (aside e w db) q', refresh_all_quiet env.now ks db q)
        (rw (get_each_quiet env'.now ks (aside e w db) q', get_each_quiet env.now ks db q))
  run-redo trn (DbOp.list_len key) s =
      rw (refresh_quiet env'.now key (aside e w db) q', refresh_quiet env.now key db q)
  run-redo trn (DbOp.list_get key index) s =
      rw (refresh_quiet env'.now key (aside e w db) q', refresh_quiet env.now key db q)
        (rw (refresh_quiet env'.now key (aside e w db) q', refresh_quiet env.now key db q))
  run-redo trn (DbOp.list_set key index x) s =
      ap (reply list_text) (list_set-redo e w env.now env'.now db q q' key index x)
  run-redo trn (DbOp.list_push_left key xs) s =
      ap (reply list_size) (list_push_left-redo e w env.now env'.now db q q' key xs)
  run-redo trn (DbOp.list_push_right key xs) s =
      ap (reply list_size) (list_push_right-redo e w env.now env'.now db q q' key xs)
  run-redo trn (DbOp.list_pop_left key n) s =
      ap (reply list_value) (list_pop_left-redo e w env.now env'.now db q q' key n)
  run-redo trn (DbOp.list_pop_right key n) s =
      ap (reply list_value) (list_pop_right-redo e w env.now env'.now db q q' key n)
  run-redo trn (DbOp.list_range key start end) s =
      rw (refresh_quiet env'.now key (aside e w db) q', refresh_quiet env.now key db q)
        (answer-aside e w list_value (range_found (find key db.m_data) start end) db)
  run-redo trn (DbOp.list_trim key start end) s =
      ap (attempt list_size) (list_trim-redo e w env.now env'.now db q q' key start end)
      ∙ attempt-aside e w list_size (list_trim env.now key start end db)
  run-redo trn (DbOp.list_remove key element count) s =
      ap (attempt list_size) (list_remove-redo e w env.now env'.now db q q' key element count)
      ∙ attempt-aside e w list_size (list_remove env.now key element count db)
  run-redo trn (DbOp.set_add key xs) s =
      ap (reply set_size) (set_add-redo e w env.now env'.now db q q' key xs)
  run-redo trn (DbOp.set_all key) s =
      rw (refresh_quiet env'.now key (aside e w db) q', refresh_quiet env.now key db q)
  run-redo trn (DbOp.set_remove key count) s = absurd s
  run-redo trn (DbOp.set_discard key xs) s =
      ap (attempt set_size) (set_discard-redo e w env.now env'.now db q q' key xs)
      ∙ attempt-aside e w set_size (set_discard env.now key xs db)
  run-redo trn (DbOp.set_len key) s =
      rw (refresh_quiet env'.now key (aside e w db) q', refresh_quiet env.now key db q)
  run-redo trn (DbOp.set_contains key x) s =
      rw (refresh_quiet env'.now key (aside e w db) q', refresh_quiet env.now key db q)
  run-redo trn (DbOp.set_move source dest x) s =
      ap (reply set_bool) (set_move-redo e w env.now env'.now db q q' source dest x)
  run-redo trn (DbOp.set_union ks) s =
      rw (refresh_all_quiet env'.now ks (aside e w db) q', refresh_all_quiet env.now ks db q)
  run-redo trn (DbOp.set_union_into dest ks) s =
      ap (reply set_size) (set_union_into-redo e w env.now env'.now db q q' dest ks)
  run-redo trn (DbOp.set_union_len ks) s =
      rw (refresh_all_quiet env'.now ks (aside e w db) q', refresh_all_quiet env.now ks db q)
  run-redo trn (DbOp.set_intersection ks) s =
      rw (refresh_all_quiet env'.now ks (aside e w db) q', refresh_all_quiet env.now ks db q)
  run-redo trn (DbOp.set_intersection_into dest ks) s =
      ap (reply set_size) (set_intersection_into-redo e w env.now env'.now db q q' dest ks)
  run-redo trn (DbOp.set_intersection_len ks) s =
      rw (refresh_all_quiet env'.now ks (aside e w db) q', refresh_all_quiet env.now ks db q)
  run-redo trn (DbOp.set_difference key1 key2) s =
      rw (refresh_quiet env'.now key1 (aside e w db) q', refresh_quiet env.now key1 db q)
        (rw (refresh_quiet env'.now key2 (aside e w db) q', refresh_quiet env.now key2 db q))
  run-redo trn (DbOp.set_difference_into dest key1 key2) s =
      ap (reply set_size) (set_difference_into-redo e w env.now env'.now db q q' dest key1 key2)
  run-redo trn (DbOp.set_difference_len key1 key2) s =
      rw (refresh_quiet env'.now key1 (aside e w db) q', refresh_quiet env.now key1 db q)
        (rw (refresh_quiet env'.now key2 (aside e w db) q', refresh_quiet env.now key2 db q))
  run-redo trn (DbOp.hash_set key xs) s = refl
  run-redo trn (DbOp.hash_all key) s =
      rw (refresh_quiet env'.now key (aside e w db) q', refresh_quiet env.now key db q)
  run-redo trn (DbOp.hash_get key field) s =
      rw (refresh_quiet env'.now key (aside e w db) q', refresh_quiet env.now key db q)
  run-redo trn (DbOp.hash_contains key field) s =
      rw (refresh_quiet env'.now key (aside e w db) q', refresh_quiet env.now key db q)
  run-redo trn (DbOp.hash_len key) s =
      rw (refresh_quiet env'.now key (aside e w db) q', refresh_quiet env.now key db q)
  run-redo trn (DbOp.hash_key_len key field) s =
      rw (refresh_quiet env'.now key (aside e w db) q', refresh_quiet env.now key db q)
  run-redo trn (DbOp.hash_remove key fields) s =
      ap (attempt hash_size) (hash_remove-redo e w env.now env'.now db q q' key fields)
      ∙ attempt-aside e w hash_size (hash_remove env.now key fields db)
  run-redo trn (DbOp.hash_keys key) s =
      rw (refresh_quiet env'.now key (aside e w db) q', refresh_quiet env.now key db q)
  run-redo trn (DbOp.hash_values key) s =
      rw (refresh_quiet env'.now key (aside e w db) q', refresh_quiet env.now key db q)
  run-redo trn (DbOp.hash_update key xs) s =
      ap (attempt hash_size) (hash_update-redo e w env.now env'.now db q q' key xs)
      ∙ attempt-aside e w hash_size (hash_update env.now key xs db)
  run-redo trn (DbOp.hash_many_get key fields) s =
      rw (refresh_quiet env'.now key (aside e w db) q', refresh_quiet env.now key db q)
  run-redo trn (DbOp.copy_to_db key to) s =
      rw (refresh_quiet env'.now key (aside e w db) q', refresh_quiet env.now key db q)
        (transfer-aside e w to (vanity.Std.Map.contains key db.m_data) db)
  run-redo trn (DbOp.move_to_db key to) s =
      rw (refresh_quiet env'.now key (aside e w db) q', refresh_quiet env.now key db q)
        (transfer-aside e w to (vanity.Std.Map.contains key db.m_data) db)

-- ===== src/Servers/BadType.antt =====
-- vanity/db/servers: which requests are answered with BAD_TYPE.
use vanity.Base.{ℕ, ◌≡◌, refl, ◌∙◌, ap, Bool, Option, some, [], ◌∷◌, ◌++◌, reverse}
use mathlib.Core.Path.{subst}
use vanity.Std.Text.{Text, codes}
use vanity.Std.Map.{find}
use vanity.Operations.{Data, DbOp}
use vanity.Database.{Database, Env}
use vanity.Database.Expiry.{refresh}
use vanity.Database.ListDatabase.{
  list_len, list_get, list_set, list_push_left, list_push_right, list_pop_left, list_pop_right,
}
use vanity.Database.ListDatabase.Ranges.{list_range, list_trim, list_remove, range_found, answer}
use vanity.Database.SetDatabase.{set_add, set_all, set_len, set_contains, set_remove, set_discard}
use vanity.Database.HashDatabase.{
  hash_all, hash_get, hash_contains, hash_len, hash_key_len, hash_remove, hash_keys, hash_values,
  hash_many_get,
}
use vanity.Database.Primitive.{incr_int, incr_float}
use vanity.Database.Expiry.Laws.{refresh_idem}
use vanity.Locked.{
  Reply, int, float, list_text, list_size, list_value, set_size, set_value, hash_size, done,
  execute, run, wal_log,
}
use vanity.Request.Call.{Call}
use vanity.Servers.{Doubles, Plan}
use vanity.Servers.Values.{number_result, primitive_plan, general_plan, expiry_plan}
use vanity.Servers.Containers.{to_size, list_result, set_result, list_plan, set_plan, hash_plan}
use vanity.Servers.Requests.{plan}
use vanity.Servers.Types.{
  is_list, needs, holds_other, says_bad_type, Says, refresh-wal_log, list_size_says, list_text_says,
  list_value_says, set_size_says, set_value_says, set_bool_says, int_says, float_says,
  hash_value_says, hash_text_says, hash_bool_says, hash_size_says, hash_list_says,
  hash_options_says, reply-Says, attempt-Says, range-Says,
}
use vanity.Servers.Found.{
  field_or_bad_key-type, field_size-type, len_found-type, get_found-type, set_found-type,
  push_found-type, pop_left_found-type, pop_right_found-type, range_found-type, trim_found-type,
  remove_found-type, set_or_empty-type, set_all-type, add_found-type, set_remove-type,
  discard_found-type, on_hash-type, hash_remove-type, incr_int_found-type, incr_float_found-type,
}

-- The method of a request answers with BAD_TYPE exactly if the key has a value of another type.
abbrev Typed : Option (Text × (Data → Bool)) → Option Plan → Type 0
Typed (some (key, test)) (some (op, answer)) =
    (env : Env) (trn : ℕ) (db : Database)
    → Says answer (holds_other test (find key (refresh env.now key db).m_data)) (run env trn op db)
Typed _ _ = Unit

plan-Typed : (doubles : Doubles) (c : Call) → Typed (needs c) (plan doubles c)
unfolding plan general_plan expiry_plan primitive_plan list_plan set_plan hash_plan run incr_int
    incr_float list_len list_get list_set list_push_left list_push_right list_pop_left
    list_pop_right list_range list_trim list_remove set_add set_all set_len set_contains set_remove
    set_discard hash_all hash_get hash_contains hash_len hash_key_len hash_remove hash_keys
    hash_values hash_many_get
plan-Typed doubles (Call.incr_int key v) = λ env trn db.
    attempt-Says _ int _ (incr_int env.now key v db)
      (λ a d e. int_says doubles _ a ∙ incr_int_found-type _ key v _ a d e)
plan-Typed doubles (Call.incr_float key v) = λ env trn db.
    reply-Says (number_result doubles (codes "not a float")) float _ (incr_float env key v db) (
      float_says doubles (codes "not a float") _
      ∙ incr_float_found-type env (find key (refresh env.now key db).m_data) key v
          (refresh env.now key db))
plan-Typed doubles (Call.list_len key) = λ env trn db. list_size_says _ ∙ len_found-type _
plan-Typed doubles (Call.list_get key i) = λ env trn db.
    list_text_says _
    ∙ get_found-type _ i
    ∙ ap (λ (d : Database). holds_other is_list (find key d.m_data)) (refresh_idem env.now key db)
plan-Typed doubles (Call.list_set key i v) = λ env trn db.
    reply-Says list_result list_text _ (list_set env.now key i v db) (
      list_text_says _
      ∙ set_found-type _ key i v (refresh env.now key (refresh env.now key db))
      ∙ ap (λ (d : Database). holds_other is_list (find key d.m_data))
          (refresh_idem env.now key db))
plan-Typed doubles (Call.list_push_left key []) = tt
plan-Typed doubles (Call.list_push_left key (x ∷ xs)) = λ env trn db.
    reply-Says list_result list_size _ (list_push_left env.now key (x ∷ xs) db) (
      list_size_says _
      ∙ push_found-type (λ l. reverse (x ∷ xs) ++ l) _ key (refresh env.now key db))
plan-Typed doubles (Call.list_push_right key []) = tt
plan-Typed doubles (Call.list_push_right key (x ∷ xs)) = λ env trn db.
    reply-Says list_result list_size _ (list_push_right env.now key (x ∷ xs) db)
      (list_size_says _ ∙ push_found-type (λ l. l ++ x ∷ xs) _ key (refresh env.now key db))
plan-Typed doubles (Call.list_pop_left key n) = λ env trn db.
    reply-Says list_result list_value _ (list_pop_left env.now key n db)
      (list_value_says _ ∙ pop_left_found-type _ key n (refresh env.now key db))
plan-Typed doubles (Call.list_pop_right key n) = λ env trn db.
    reply-Says list_result list_value _ (list_pop_right env.now key n db)
      (list_value_says _ ∙ pop_right_found-type _ key n (refresh env.now key db))
plan-Typed doubles (Call.list_range key i j) = λ env trn db.
    range-Says _ _ (range_found (find key (refresh env.now key db).m_data) i j)
      (λ a e. list_value_says a ∙ range_found-type _ i j a e)
plan-Typed doubles (Call.list_trim key i j) = λ env trn db.
    attempt-Says _ list_size _ (list_trim env.now key i j db)
      (λ a d e. list_size_says a ∙ trim_found-type _ key i j _ a d e)
plan-Typed doubles (Call.list_remove key x n) = λ env trn db.
    attempt-Says _ list_size _ (list_remove env.now key x n db)
      (λ a d e. list_size_says a ∙ remove_found-type _ key x n _ a d e)
plan-Typed doubles (Call.set_add key []) = tt
plan-Typed doubles (Call.set_add key (x ∷ xs)) = λ env trn db.
    reply-Says set_result set_size _ (set_add env.now key (x ∷ xs) db)
      (set_size_says _ ∙ add_found-type _ key (x ∷ xs) (refresh env.now key db))
plan-Typed doubles (Call.set_all key) = λ env trn db. set_value_says _ ∙ set_all-type _
plan-Typed doubles (Call.set_discard key vs) = λ env trn db.
    attempt-Says _ set_size _ (set_discard env.now key vs db)
      (λ a d e. set_size_says a ∙ discard_found-type _ key vs _ a d e)
plan-Typed doubles (Call.set_len key) = λ env trn db. set_size_says _ ∙ set_or_empty-type _ _
plan-Typed doubles (Call.set_contains key v) = λ env trn db. set_bool_says _ ∙ set_or_empty-type _ _
plan-Typed doubles (Call.set_remove key n) = λ env trn db.
    reply-Says set_result set_value _ (set_remove env key (to_size n) db)
      (set_value_says _ ∙ set_remove-type env _ key (to_size n) (refresh env.now key db))
plan-Typed doubles (Call.hash_all key) =
    λ env trn db. hash_value_says _ ∙ on_hash-type _ _ _ refl (λ h. refl)
plan-Typed doubles (Call.hash_get key field) = λ env trn db.
    hash_text_says _ ∙ on_hash-type _ _ _ refl (λ h. field_or_bad_key-type (find field h))
plan-Typed doubles (Call.hash_contains key field) =
    λ env trn db. hash_bool_says _ ∙ on_hash-type _ _ _ refl (λ h. refl)
plan-Typed doubles (Call.hash_len key) =
    λ env trn db. hash_size_says _ ∙ on_hash-type _ _ _ refl (λ h. refl)
plan-Typed doubles (Call.hash_key_len key field) =
    λ env trn db. hash_size_says _ ∙ on_hash-type _ _ _ refl (λ h. field_size-type (find field h))
plan-Typed doubles (Call.hash_remove key fields) = λ env trn db.
    attempt-Says _ hash_size _ (hash_remove env.now key fields db)
      (λ a d e. hash_size_says a ∙ hash_remove-type _ key fields _ a d e)
plan-Typed doubles (Call.hash_keys key) =
    λ env trn db. hash_list_says _ ∙ on_hash-type _ _ _ refl (λ h. refl)
plan-Typed doubles (Call.hash_values key) =
    λ env trn db. hash_list_says _ ∙ on_hash-type _ _ _ refl (λ h. refl)
plan-Typed doubles (Call.hash_many_get key fields) =
    λ env trn db. hash_options_says _ ∙ on_hash-type _ _ _ refl (λ h. refl)
plan-Typed doubles _ = tt

-- If a request that needs a value of some type at a key calls a method of the database, and the method
-- returns, then the response begins with BAD_TYPE exactly if the key, once it is erased if it is due,
-- has a value of another type. The requests are INCR_INT, INCR_FLOAT, those on one list, set or hash,
-- but not SET_MOVE, HASH_SET and HASH_UPDATE, and no push or addition of nothing.
pub plan-bad_type :
    (doubles : Doubles) (c : Call) {key : Text} {test : Data → Bool} {op : DbOp}
    {answer : Reply → Option Text}
    → needs c ≡ some (key, test)
    → plan doubles c ≡ some (op, answer)
    → (env : Env) (trn : ℕ) (db : Database) {r : Reply} {after : Database}
    → execute env trn op db ≡ done r after
    → says_bad_type (answer r) ≡ holds_other test (find key (refresh env.now key db).m_data)
unfolding execute
plan-bad_type doubles c {key = key} {test = test} {op = op} {answer = answer} n p env trn db h =
    subst (Says answer _) h (typed env trn (wal_log trn op db))
    ∙ ap (λ m. holds_other test (find key m)) (refresh-wal_log env.now key trn op db)
  where
    typed : Typed (some (key, test)) (some (op, answer))
    typed =
        subst (λ x. Typed x (some (op, answer))) n
          (subst (λ x. Typed (needs c) x) p (plan-Typed doubles c))

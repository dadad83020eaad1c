-- ===== src/Servers/Containers.antt =====
-- list_database_server.cpp, set_database_server.cpp and hash_database_server.cpp in vanity/db/servers.
use vanity.Base.{ℕ, ◌^◌, ◌-◌, ℤ, pos, negsuc, Option, none, some, ok, err}
use vanity.Std.Text.{Text, codes}
use vanity.Operations.{DbOp}
use vanity.Database.ListDatabase
use vanity.Database.ListDatabase.{not_list, out_of_range}
use vanity.Database.HashDatabase
use vanity.Database.HashDatabase.{not_hash, bad_key}
use vanity.Locked.{Reply}
use vanity.Request.Call.{Call}
use vanity.Response.{
  Status, error_response, serialize_bool, serialize_string, serialize_list, serialize_set,
  serialize_hash, serialize_arr, serialize_tuple, serialize_optional,
}
use vanity.Servers.{Plan, ok_with, ok_alone, serialize_size}

-- The conversion of an int64_t to a size_t
abbrev pub to_size : ℤ → ℕ
to_size (pos n) = n
to_size (negsuc n) = 2 ^ 64 - 1 - n

-- ListDatabaseServer::handle_result and send_error
abbrev list_answer : {A : Type 0} → (A → Text) → ListDatabase.Answer A → Option Text
list_answer f (ok a) = ok_with (f a)
list_answer f (err not_list) = some (error_response Status.bad_type (codes "not a list"))
list_answer f (err out_of_range) = some (error_response Status.error (codes "index out of range"))

unfoldable pub list_result : Reply → Option Text
list_result (Reply.list_size a) = list_answer serialize_size a
list_result (Reply.list_text a) = list_answer serialize_string a
list_result (Reply.list_value a) = list_answer serialize_list a
list_result _ = none

unfoldable pub list_plan : Call → Option Plan
list_plan (Call.list_len key) = some (DbOp.list_len key, list_result)
list_plan (Call.list_get key i) = some (DbOp.list_get key i, list_result)
list_plan (Call.list_set key i v) = some (DbOp.list_set key i v, list_result)
list_plan (Call.list_push_left key vs) = some (DbOp.list_push_left key vs, list_result)
list_plan (Call.list_push_right key vs) = some (DbOp.list_push_right key vs, list_result)
list_plan (Call.list_pop_left key n) = some (DbOp.list_pop_left key n, list_result)
list_plan (Call.list_pop_right key n) = some (DbOp.list_pop_right key n, list_result)
list_plan (Call.list_range key i j) = some (DbOp.list_range key i j, list_result)
list_plan (Call.list_trim key i j) = some (DbOp.list_trim key i j, list_result)
list_plan (Call.list_remove key v n) = some (DbOp.list_remove key v n, list_result)
list_plan _ = none

-- SetDatabaseServer::handle_result
abbrev set_answer : {A : Type 0} → (A → Text) → Option A → Option Text
set_answer f (some a) = ok_with (f a)
set_answer f none = some (error_response Status.bad_type (codes "not a set"))

unfoldable pub set_result : Reply → Option Text
set_result (Reply.set_size o) = set_answer serialize_size o
set_result (Reply.set_value o) = set_answer serialize_set o
set_result (Reply.set_bool o) = set_answer serialize_bool o
set_result _ = none

unfoldable pub set_plan : Call → Option Plan
set_plan (Call.set_add key vs) = some (DbOp.set_add key vs, set_result)
set_plan (Call.set_all key) = some (DbOp.set_all key, set_result)
set_plan (Call.set_discard key vs) = some (DbOp.set_discard key vs, set_result)
set_plan (Call.set_len key) = some (DbOp.set_len key, set_result)
set_plan (Call.set_contains key v) = some (DbOp.set_contains key v, set_result)
set_plan (Call.set_move source dest v) = some (DbOp.set_move source dest v, set_result)
set_plan (Call.set_union keys) = some (DbOp.set_union keys, set_result)
set_plan (Call.set_union_into dest keys) = some (DbOp.set_union_into dest keys, set_result)
set_plan (Call.set_union_len keys) = some (DbOp.set_union_len keys, set_result)
set_plan (Call.set_intersection keys) = some (DbOp.set_intersection keys, set_result)
set_plan (Call.set_intersection_into dest keys) =
    some (DbOp.set_intersection_into dest keys, set_result)
set_plan (Call.set_intersection_len keys) = some (DbOp.set_intersection_len keys, set_result)
set_plan (Call.set_difference key1 key2) = some (DbOp.set_difference key1 key2, set_result)
set_plan (Call.set_difference_into dest key1 key2) =
    some (DbOp.set_difference_into dest key1 key2, set_result)
set_plan (Call.set_difference_len key1 key2) = some (DbOp.set_difference_len key1 key2, set_result)
set_plan (Call.set_remove key count) = some (DbOp.set_remove key (to_size count), set_result)
set_plan _ = none

-- HashDatabaseServer::handle_result and send_error
abbrev hash_answer : {A : Type 0} → (A → Text) → HashDatabase.Answer A → Option Text
hash_answer f (ok a) = ok_with (f a)
hash_answer f (err not_hash) = some (error_response Status.bad_type (codes "not hash"))
hash_answer f (err bad_key) = some (error_response Status.error (codes "bad key"))

unfoldable pub hash_result : Reply → Option Text
hash_result Reply.unit = ok_alone
hash_result (Reply.hash_value a) = hash_answer serialize_hash a
hash_result (Reply.hash_text a) = hash_answer serialize_string a
hash_result (Reply.hash_bool a) = hash_answer serialize_bool a
hash_result (Reply.hash_size a) = hash_answer serialize_size a
hash_result (Reply.hash_list a) = hash_answer serialize_arr a
hash_result (Reply.hash_options a) =
    hash_answer (serialize_tuple (serialize_optional serialize_string)) a
hash_result _ = none

unfoldable pub hash_plan : Call → Option Plan
hash_plan (Call.hash_set key vs) = some (DbOp.hash_set key vs, hash_result)
hash_plan (Call.hash_all key) = some (DbOp.hash_all key, hash_result)
hash_plan (Call.hash_get key field) = some (DbOp.hash_get key field, hash_result)
hash_plan (Call.hash_contains key field) = some (DbOp.hash_contains key field, hash_result)
hash_plan (Call.hash_len key) = some (DbOp.hash_len key, hash_result)
hash_plan (Call.hash_key_len key field) = some (DbOp.hash_key_len key field, hash_result)
hash_plan (Call.hash_remove key fields) = some (DbOp.hash_remove key fields, hash_result)
hash_plan (Call.hash_keys key) = some (DbOp.hash_keys key, hash_result)
hash_plan (Call.hash_values key) = some (DbOp.hash_values key, hash_result)
hash_plan (Call.hash_update key vs) = some (DbOp.hash_update key vs, hash_result)
hash_plan (Call.hash_many_get key fields) = some (DbOp.hash_many_get key fields, hash_result)
hash_plan _ = none

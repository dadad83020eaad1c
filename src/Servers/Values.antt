-- ===== src/Servers/Values.antt =====
-- general_database_server.cpp, expiry_database_server.cpp and primitive_database_server.cpp in
-- vanity/db/servers.
use vanity.Base.{ℕ, Option, none, some, [], ◌∷◌, ◌++◌, ◌==◌, if◌then◌else◌}
use vanity.Std.Text.{Text, codes}
use vanity.Operations.{DbOp}
use vanity.Locked.{Reply}
use vanity.Request.Call.{Call}
use vanity.Response.{
  Status, empty_response, error_response, serialize_int, serialize_float, serialize_arr,
  serialize_data, serialize_tuple, serialize_optional,
}
use vanity.Servers.{Doubles, Plan, ok_with, finished, tested, serialize_size}

-- serialize_type for the index of an alternative
unfoldable pub type_text : ℕ → Text
type_text i =
    if i == 0
    then codes ":STR"
    else if i == 1
    then codes ":INT"
    else if i == 2
    then codes ":FLOAT"
    else if i == 3
    then codes ":LIST"
    else if i == 4
    then codes ":SET"
    else codes ":HASH"

module _ (doubles : Doubles) where
  -- GeneralDatabaseServer
  unfoldable pub get_result : Reply → Option Text
  get_result (Reply.value none) = some (empty_response Status.null)
  get_result (Reply.value (some d)) = ok_with (serialize_data doubles.float_to_string d)
  get_result _ = none

  unfoldable pub type_result : Reply → Option Text
  type_result (Reply.type_index none) = some (empty_response Status.null)
  type_result (Reply.type_index (some i)) = some (empty_response Status.ok ++ type_text i)
  type_result _ = none

  unfoldable pub keys_result : Reply → Option Text
  keys_result (Reply.key_list []) = some (empty_response Status.null)
  keys_result (Reply.key_list (k ∷ ks)) = ok_with (serialize_arr (k ∷ ks))
  keys_result _ = none

  unfoldable pub general_plan : Call → Option Plan
  general_plan (Call.get key) = some (DbOp.get key, get_result)
  general_plan (Call.del key) = some (DbOp.del key, tested)
  general_plan (Call.type key) = some (DbOp.type key, type_result)
  general_plan Call.reset = some (DbOp.reset, finished)
  general_plan (Call.exists key) = some (DbOp.has key, tested)
  general_plan Call.keys = some (DbOp.keys, keys_result)
  general_plan (Call.copy_to from to) = some (DbOp.copy_to from to, tested)
  general_plan (Call.move_to from to) = some (DbOp.move_to from to, tested)
  general_plan _ = none

  -- ExpiryDatabaseServer
  unfoldable pub expiry_result : Reply → Option Text
  expiry_result (Reply.time none) = some (empty_response Status.null)
  expiry_result (Reply.time (some t)) =
      ok_with (serialize_float doubles.float_to_string (doubles.time_point_to_seconds t))
  expiry_result _ = none

  unfoldable pub expiry_plan : Call → Option Plan
  expiry_plan (Call.set_expiry key seconds) =
      some (DbOp.set_expiry key (doubles.seconds_to_time_point seconds), finished)
  expiry_plan (Call.get_expiry key) = some (DbOp.get_expiry key, expiry_result)
  expiry_plan (Call.clear_expiry key) = some (DbOp.clear_expiry key, finished)
  expiry_plan _ = none

  -- PrimitiveDatabaseServer
  unfoldable pub number_result : Text → Reply → Option Text
  number_result e (Reply.int (some n)) = ok_with (serialize_int n)
  number_result e (Reply.int none) = some (error_response Status.bad_type e)
  number_result e (Reply.float (some x)) = ok_with (serialize_float doubles.float_to_string x)
  number_result e (Reply.float none) = some (error_response Status.bad_type e)
  number_result e (Reply.str_size (some n)) = ok_with (serialize_size n)
  number_result e (Reply.str_size none) = some (error_response Status.bad_type e)
  number_result e (Reply.values l) =
      ok_with (serialize_tuple (serialize_optional (serialize_data doubles.float_to_string)) l)
  number_result e _ = none

  unfoldable pub primitive_plan : Call → Option Plan
  primitive_plan (Call.str_set key v) = some (DbOp.str_set key v, finished)
  primitive_plan (Call.int_set key v) = some (DbOp.int_set key v, finished)
  primitive_plan (Call.float_set key v) = some (DbOp.float_set key v, finished)
  primitive_plan (Call.incr_int key v) =
      some (DbOp.incr_int key v, number_result (codes "not an int"))
  primitive_plan (Call.incr_float key v) =
      some (DbOp.incr_float key v, number_result (codes "not a float"))
  primitive_plan (Call.str_len key) = some (DbOp.str_len key, number_result (codes "not a string"))
  primitive_plan (Call.many_get keys) = some (DbOp.many_get keys, number_result [])
  primitive_plan _ = none

-- ===== src/Servers.antt =====
-- vanity/db/servers: which method of the database of a client a request calls, and how its result is
-- answered.
pub mod Values
pub mod Containers
pub mod Requests
pub mod Types
pub mod Found
pub mod BadType
use vanity.Base.{
  ℕ, ◌^◌, ◌-◌, ℤ, pos, negsuc, Bool, true, false, Option, none, some, List, [], ◌∷◌, ◌++◌, Result,
  ok, err, ltb, ◌==◌, if◌then◌else◌,
}
use vanity.Std.Text.{Text, codes}
use vanity.Operations.{Data, DbOp}
use vanity.Database.ListDatabase
use vanity.Database.ListDatabase.{not_list, out_of_range}
use vanity.Database.HashDatabase
use vanity.Database.HashDatabase.{not_hash, bad_key}
use vanity.Locked.{Reply}
use vanity.Request.Call.{Call}
use vanity.Response.{
  Status, value_response, empty_response, error_response, serialize_bool, serialize_string,
  serialize_int, serialize_float, serialize_list, serialize_set, serialize_hash, serialize_arr,
  serialize_data, serialize_tuple, serialize_optional,
}

-- What the code takes from outside the program: std::to_string of a double, and the conversions of
-- seconds to a time point and back, which read the clock.
pub record Doubles : Type 0 where
  pub float_to_string : ℕ → Text
  pub seconds_to_time_point : ℕ → ℤ
  pub time_point_to_seconds : ℤ → ℕ

-- The method that is called, and the response to what it returns; `none` for a result of another type.
abbrev pub Plan : Type 0
Plan = DbOp × (Reply → Option Text)

abbrev pub ok_with : Text → Option Text
ok_with v = some (value_response Status.ok v)

abbrev pub ok_alone : Option Text
ok_alone = some (empty_response Status.ok)

-- int64_t(size)
abbrev pub serialize_size : ℕ → Text
serialize_size n = serialize_int (if ltb n (2 ^ 63) then pos n else negsuc (2 ^ 64 - 1 - n))

-- ok() for true, null() for false
abbrev pub ok_or_null : Bool → Option Text
ok_or_null b = some (empty_response (if b then Status.ok else Status.null))

abbrev pub finished : Reply → Option Text
finished Reply.unit = ok_alone
finished _ = none

abbrev pub tested : Reply → Option Text
tested (Reply.bool b) = ok_or_null b
tested _ = none

-- ===== src/Examples/Servers.antt =====
-- The answer to a request on a small database, for a key that holds a list instead of an integer.
use vanity.Base.{zero, ◌≡◌, refl, none, pos, ◌+ℤ◌}
use vanity.Std.Text.{codes, text_eq}
use vanity.Std.Map.{find, erase}
use vanity.Operations.{should_wal}
use vanity.Database.Expiry.{erase_if_expired, is_expired, expire, refresh}
use vanity.Database.Primitive.{incr_int, incr_int_found, add_int, in_int64}
use vanity.Locked.{execute, run, wal_log, int}
use vanity.Request.Call.{Call}
use vanity.Servers.{Doubles}
use vanity.Servers.Values.{number_result, general_plan, expiry_plan, primitive_plan}
use vanity.Servers.Requests.{plan}
use vanity.Servers.Types.{is_int, holds_other, says_bad_type}
use vanity.Servers.BadType.{plan-bad_type}
use vanity.Examples.{stock, key_l, env_at, early}

abbrev some_doubles : Doubles
some_doubles = record {
  float_to_string = λ x. codes "0";
  seconds_to_time_point = pos;
  time_point_to_seconds = λ t. zero;
}

bad_type_example :
    says_bad_type (number_result some_doubles (codes "not an int") (int none))
    ≡ holds_other is_int (find key_l (refresh (env_at early).now key_l stock).m_data)
unfolding execute run wal_log should_wal incr_int incr_int_found add_int in_int64 ◌+ℤ◌
    erase_if_expired is_expired find text_eq plan general_plan expiry_plan primitive_plan expire
    erase
bad_type_example =
    plan-bad_type some_doubles (Call.incr_int key_l (pos 1)) refl refl (env_at early) 4 stock refl

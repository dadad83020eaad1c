-- ===== src/Request/Dispatch/Keys.antt =====
-- vanity/request/request_handler.cpp: the requests on keys and plain values.
use vanity.Base.{Bool, Option, none, some}
use vanity.Std.Text.{Text}
use vanity.Request.Extractable.{Extract, give, Platform}
use vanity.Request.Objects.{get_arr, get_float, get_int, get_str}
use vanity.Request.Operation.{Operation}
use vanity.Request.Call.{Call}
use vanity.Request.Exact.{both, request, skipped}

-- `none`: a case of another part
module _ (msg : Text) where
  module _ (platform : Platform) where
    unfoldable pub dispatch_keys : Operation → Bool → Option (Extract Call)
    dispatch_keys Operation.del end = some (request msg (get_str msg) end (λ x. Call.del x))
    dispatch_keys Operation.type end = some (request msg (get_str msg) end (λ x. Call.type x))
    dispatch_keys Operation.exists end = some (request msg (get_str msg) end (λ x. Call.exists x))
    dispatch_keys Operation.reset end = some (request msg (give tt) end (λ u. Call.reset))
    dispatch_keys Operation.keys end = some (request msg (give tt) end (λ u. Call.keys))
    dispatch_keys Operation.copy_to end =
        some (request msg (both (get_str msg) (get_str msg)) end (λ x. Call.copy_to x.0 x.1))
    dispatch_keys Operation.move_to end =
        some (request msg (both (get_str msg) (get_str msg)) end (λ x. Call.move_to x.0 x.1))
    dispatch_keys Operation.copy_to_db end =
        some (request msg (both (get_str msg) (get_int msg)) end (λ x. Call.copy_to_db x.0 x.1))
    dispatch_keys Operation.move_to_db end =
        some (request msg (both (get_str msg) (get_int msg)) end (λ x. Call.move_to_db x.0 x.1))
    dispatch_keys Operation.set_expiry end = some (
        request msg (both (get_str msg) (get_float msg platform)) end
          (λ x. Call.set_expiry x.0 x.1))
    dispatch_keys Operation.get_expiry end =
        some (request msg (get_str msg) end (λ x. Call.get_expiry x))
    dispatch_keys Operation.clear_expiry end =
        some (request msg (get_str msg) end (λ x. Call.clear_expiry x))
    dispatch_keys Operation.get end = some (request msg (get_str msg) end (λ x. Call.get x))
    dispatch_keys Operation.str_set end =
        some (request msg (both (get_str msg) (get_str msg)) end (λ x. Call.str_set x.0 x.1))
    dispatch_keys Operation.int_set end =
        some (request msg (both (get_str msg) (get_int msg)) end (λ x. Call.int_set x.0 x.1))
    dispatch_keys Operation.float_set end = some (
        request msg (both (get_str msg) (get_float msg platform)) end (λ x. Call.float_set x.0 x.1))
    dispatch_keys Operation.incr_int end =
        some (request msg (both (get_str msg) (get_int msg)) end (λ x. Call.incr_int x.0 x.1))
    dispatch_keys Operation.incr_float end = some (
        request msg (both (get_str msg) (get_float msg platform)) end
          (λ x. Call.incr_float x.0 x.1))
    dispatch_keys Operation.str_len end = some (request msg (get_str msg) end (λ x. Call.str_len x))
    dispatch_keys Operation.many_get end =
        some (request msg (get_arr msg platform) end (λ x. Call.many_get x))
    dispatch_keys _ end = none

    unfoldable pub dry_keys : Operation → Bool → Option (Extract Unit)
    dry_keys Operation.del end = some (skipped msg (get_str msg) end)
    dry_keys Operation.type end = some (skipped msg (get_str msg) end)
    dry_keys Operation.exists end = some (skipped msg (get_str msg) end)
    dry_keys Operation.reset end = some (skipped msg (give tt) end)
    dry_keys Operation.keys end = some (skipped msg (give tt) end)
    dry_keys Operation.copy_to end = some (skipped msg (both (get_str msg) (get_str msg)) end)
    dry_keys Operation.move_to end = some (skipped msg (both (get_str msg) (get_str msg)) end)
    dry_keys Operation.copy_to_db end = some (skipped msg (both (get_str msg) (get_int msg)) end)
    dry_keys Operation.move_to_db end = some (skipped msg (both (get_str msg) (get_int msg)) end)
    dry_keys Operation.set_expiry end =
        some (skipped msg (both (get_str msg) (get_float msg platform)) end)
    dry_keys Operation.get_expiry end = some (skipped msg (get_str msg) end)
    dry_keys Operation.clear_expiry end = some (skipped msg (get_str msg) end)
    dry_keys Operation.get end = some (skipped msg (get_str msg) end)
    dry_keys Operation.str_set end = some (skipped msg (both (get_str msg) (get_str msg)) end)
    dry_keys Operation.int_set end = some (skipped msg (both (get_str msg) (get_int msg)) end)
    dry_keys Operation.float_set end =
        some (skipped msg (both (get_str msg) (get_float msg platform)) end)
    dry_keys Operation.incr_int end = some (skipped msg (both (get_str msg) (get_int msg)) end)
    dry_keys Operation.incr_float end =
        some (skipped msg (both (get_str msg) (get_float msg platform)) end)
    dry_keys Operation.str_len end = some (skipped msg (get_str msg) end)
    dry_keys Operation.many_get end = some (skipped msg (get_arr msg platform) end)
    dry_keys _ end = none

-- ===== src/Request/Dispatch/Lists.antt =====
-- vanity/request/request_handler.cpp: the requests on lists.
use vanity.Base.{Bool, Option, none, some}
use vanity.Std.Text.{Text}
use vanity.Request.Extractable.{Extract}
use vanity.Request.Objects.{get_int, get_list, get_str}
use vanity.Request.Operation.{Operation}
use vanity.Request.Call.{Call}
use vanity.Request.Exact.{both, request, skipped}

-- `none`: a case of another part
module _ (msg : Text) where
  unfoldable pub dispatch_lists : Operation → Bool → Option (Extract Call)
  dispatch_lists Operation.list_len end =
      some (request msg (get_str msg) end (λ x. Call.list_len x))
  dispatch_lists Operation.list_get end =
      some (request msg (both (get_str msg) (get_int msg)) end (λ x. Call.list_get x.0 x.1))
  dispatch_lists Operation.list_set end = some (
      request msg (both (get_str msg) (both (get_int msg) (get_str msg))) end
        (λ x. Call.list_set x.0 x.1.0 x.1.1))
  dispatch_lists Operation.list_push_left end =
      some (request msg (both (get_str msg) (get_list msg)) end (λ x. Call.list_push_left x.0 x.1))
  dispatch_lists Operation.list_push_right end =
      some (request msg (both (get_str msg) (get_list msg)) end (λ x. Call.list_push_right x.0 x.1))
  dispatch_lists Operation.list_pop_left end =
      some (request msg (both (get_str msg) (get_int msg)) end (λ x. Call.list_pop_left x.0 x.1))
  dispatch_lists Operation.list_pop_right end =
      some (request msg (both (get_str msg) (get_int msg)) end (λ x. Call.list_pop_right x.0 x.1))
  dispatch_lists Operation.list_range end = some (
      request msg (both (get_str msg) (both (get_int msg) (get_int msg))) end
        (λ x. Call.list_range x.0 x.1.0 x.1.1))
  dispatch_lists Operation.list_trim end = some (
      request msg (both (get_str msg) (both (get_int msg) (get_int msg))) end
        (λ x. Call.list_trim x.0 x.1.0 x.1.1))
  dispatch_lists Operation.list_remove end = some (
      request msg (both (get_str msg) (both (get_str msg) (get_int msg))) end
        (λ x. Call.list_remove x.0 x.1.0 x.1.1))
  dispatch_lists _ end = none

  unfoldable pub dry_lists : Operation → Bool → Option (Extract Unit)
  dry_lists Operation.list_len end = some (skipped msg (get_str msg) end)
  dry_lists Operation.list_get end = some (skipped msg (both (get_str msg) (get_int msg)) end)
  dry_lists Operation.list_set end =
      some (skipped msg (both (get_str msg) (both (get_int msg) (get_str msg))) end)
  dry_lists Operation.list_push_left end =
      some (skipped msg (both (get_str msg) (get_list msg)) end)
  dry_lists Operation.list_push_right end =
      some (skipped msg (both (get_str msg) (get_list msg)) end)
  dry_lists Operation.list_pop_left end = some (skipped msg (both (get_str msg) (get_int msg)) end)
  dry_lists Operation.list_pop_right end = some (skipped msg (both (get_str msg) (get_int msg)) end)
  dry_lists Operation.list_range end =
      some (skipped msg (both (get_str msg) (both (get_int msg) (get_int msg))) end)
  dry_lists Operation.list_trim end =
      some (skipped msg (both (get_str msg) (both (get_int msg) (get_int msg))) end)
  dry_lists Operation.list_remove end =
      some (skipped msg (both (get_str msg) (both (get_str msg) (get_int msg))) end)
  dry_lists _ end = none

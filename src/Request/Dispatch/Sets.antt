-- ===== src/Request/Dispatch/Sets.antt =====
-- vanity/request/request_handler.cpp: the requests on sets.
use vanity.Base.{Bool, Option, none, some}
use vanity.Std.Text.{Text}
use vanity.Request.Extractable.{Extract, Platform}
use vanity.Request.Objects.{get_arr, get_int, get_set, get_str}
use vanity.Request.Operation.{Operation}
use vanity.Request.Call.{Call}
use vanity.Request.Exact.{both, request, skipped}

-- `none`: a case of another part
module _ (msg : Text) where
  module _ (platform : Platform) where
    unfoldable pub dispatch_sets : Operation → Bool → Option (Extract Call)
    dispatch_sets Operation.set_add end =
        some (request msg (both (get_str msg) (get_set msg)) end (λ x. Call.set_add x.0 x.1))
    dispatch_sets Operation.set_all end = some (request msg (get_str msg) end (λ x. Call.set_all x))
    dispatch_sets Operation.set_remove end =
        some (request msg (both (get_str msg) (get_int msg)) end (λ x. Call.set_remove x.0 x.1))
    dispatch_sets Operation.set_discard end =
        some (request msg (both (get_str msg) (get_set msg)) end (λ x. Call.set_discard x.0 x.1))
    dispatch_sets Operation.set_len end = some (request msg (get_str msg) end (λ x. Call.set_len x))
    dispatch_sets Operation.set_contains end =
        some (request msg (both (get_str msg) (get_str msg)) end (λ x. Call.set_contains x.0 x.1))
    dispatch_sets Operation.set_move end = some (
        request msg (both (get_str msg) (both (get_str msg) (get_str msg))) end
          (λ x. Call.set_move x.0 x.1.0 x.1.1))
    dispatch_sets Operation.set_union end =
        some (request msg (get_arr msg platform) end (λ x. Call.set_union x))
    dispatch_sets Operation.set_union_into end = some (
        request msg (both (get_str msg) (get_arr msg platform)) end
          (λ x. Call.set_union_into x.0 x.1))
    dispatch_sets Operation.set_union_len end =
        some (request msg (get_arr msg platform) end (λ x. Call.set_union_len x))
    dispatch_sets Operation.set_intersect end =
        some (request msg (get_arr msg platform) end (λ x. Call.set_intersection x))
    dispatch_sets Operation.set_intersect_into end = some (
        request msg (both (get_str msg) (get_arr msg platform)) end
          (λ x. Call.set_intersection_into x.0 x.1))
    dispatch_sets Operation.set_intersect_len end =
        some (request msg (get_arr msg platform) end (λ x. Call.set_intersection_len x))
    dispatch_sets Operation.set_diff end =
        some (request msg (both (get_str msg) (get_str msg)) end (λ x. Call.set_difference x.0 x.1))
    dispatch_sets Operation.set_diff_into end = some (
        request msg (both (get_str msg) (both (get_str msg) (get_str msg))) end
          (λ x. Call.set_difference_into x.0 x.1.0 x.1.1))
    dispatch_sets Operation.set_diff_len end =
        some (
          request msg (both (get_str msg) (get_str msg)) end (λ x. Call.set_difference_len x.0 x.1))
    dispatch_sets _ end = none

    unfoldable pub dry_sets : Operation → Bool → Option (Extract Unit)
    dry_sets Operation.set_add end = some (skipped msg (both (get_str msg) (get_set msg)) end)
    dry_sets Operation.set_all end = some (skipped msg (get_str msg) end)
    dry_sets Operation.set_remove end = some (skipped msg (both (get_str msg) (get_int msg)) end)
    dry_sets Operation.set_discard end = some (skipped msg (both (get_str msg) (get_set msg)) end)
    dry_sets Operation.set_len end = some (skipped msg (get_str msg) end)
    dry_sets Operation.set_contains end = some (skipped msg (both (get_str msg) (get_str msg)) end)
    dry_sets Operation.set_move end =
        some (skipped msg (both (get_str msg) (both (get_str msg) (get_str msg))) end)
    dry_sets Operation.set_union end = some (skipped msg (get_arr msg platform) end)
    dry_sets Operation.set_union_into end =
        some (skipped msg (both (get_str msg) (get_arr msg platform)) end)
    dry_sets Operation.set_union_len end = some (skipped msg (get_arr msg platform) end)
    dry_sets Operation.set_intersect end = some (skipped msg (get_arr msg platform) end)
    dry_sets Operation.set_intersect_into end =
        some (skipped msg (both (get_str msg) (get_arr msg platform)) end)
    dry_sets Operation.set_intersect_len end = some (skipped msg (get_arr msg platform) end)
    dry_sets Operation.set_diff end = some (skipped msg (both (get_str msg) (get_str msg)) end)
    dry_sets Operation.set_diff_into end =
        some (skipped msg (both (get_str msg) (both (get_str msg) (get_str msg))) end)
    dry_sets Operation.set_diff_len end = some (skipped msg (both (get_str msg) (get_str msg)) end)
    dry_sets _ end = none

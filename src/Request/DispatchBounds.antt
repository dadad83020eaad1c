-- ===== src/Request/DispatchBounds.antt =====
-- vanity/request/request_handler.cpp: a dispatched request stays inside its message.
use vanity.Base.{ℕ, ◌≤◌, Bool, length}
use vanity.Std.Text.{Text}
use vanity.Request.Extractable.{Extract, Platform, give, ensure_end_if}
use vanity.Request.Operation.{Operation, operation_strings, get_operation}
use vanity.Request.Call.{Call}
use vanity.Request.Exact.{both, exact, request, skipped}
use vanity.Request.Bounds.{
  Within, IsSafe, Uses, >>=-IsSafe, ensure_end_if-IsSafe, get_from_list-IsSafe, safe_objects,
}
use vanity.Request.Dispatch.Server.{dispatch_server, dry_server}
use vanity.Request.Dispatch.Keys.{dispatch_keys, dry_keys}
use vanity.Request.Dispatch.Lists.{dispatch_lists, dry_lists}
use vanity.Request.Dispatch.Sets.{dispatch_sets, dry_sets}
use vanity.Request.Dispatch.Hashes.{dispatch_hashes, dry_hashes}
use vanity.Request.Dispatch.Cluster.{dispatch_cluster, dry_cluster}
use vanity.Request.Dispatch.{dispatch_op, dry_dispatch_op, dispatch, dry_dispatch}

module _ (msg : Text) where
  both-IsSafe :
      {A B : Type 0} (m : Extract A) (n : Extract B)
      → IsSafe msg m
      → IsSafe msg n
      → IsSafe msg (both m n)
  both-IsSafe m n hm hn = >>=-IsSafe msg m _ hm (λ a. >>=-IsSafe msg n _ hn (λ b p h. h))

  exact-IsSafe :
      {A : Type 0} (m : Extract A) (end : Bool) → IsSafe msg m → IsSafe msg (exact msg m end)
  exact-IsSafe m end hm =
      >>=-IsSafe msg m _ hm
        (λ a. >>=-IsSafe msg (ensure_end_if msg end) _ (ensure_end_if-IsSafe msg end) (λ u p h. h))

  request-IsSafe :
      {A : Type 0} (m : Extract A) (end : Bool) (f : A → Call)
      → IsSafe msg m
      → IsSafe msg (request msg m end f)
  request-IsSafe m end f hm =
      >>=-IsSafe msg (exact msg m end) _ (exact-IsSafe m end hm) (λ a p h. h)

  give-IsSafe : {A : Type 0} (a : A) → IsSafe msg (give a)
  give-IsSafe a p h = h

  skipped-IsSafe :
      {A : Type 0} (m : Extract A) (end : Bool) → IsSafe msg m → IsSafe msg (skipped msg m end)
  skipped-IsSafe m end hm = >>=-IsSafe msg (exact msg m end) _ (exact-IsSafe m end hm) (λ a p h. h)

ruleset safe_requests = (safe_objects, both-IsSafe, request-IsSafe, skipped-IsSafe, give-IsSafe)

module _ (msg : Text) (platform : Platform)
    (uses : (t : Text) → Uses (length t) (platform.strtod t)) where
  pub dispatch_op-IsSafe :
      (op : Operation) (end : Bool) → IsSafe msg (dispatch_op msg platform op end)
  unfolding dispatch_op dispatch_server dispatch_keys dispatch_lists dispatch_sets dispatch_hashes
      dispatch_cluster
  dispatch_op-IsSafe Operation.pipe end = give-IsSafe msg Call.pipe
  dispatch_op-IsSafe _ end = search safe_requests

  pub dry_dispatch_op-IsSafe :
      (op : Operation) (end : Bool) → IsSafe msg (dry_dispatch_op msg platform op end)
  unfolding dry_dispatch_op dry_server dry_keys dry_lists dry_sets dry_hashes dry_cluster
  dry_dispatch_op-IsSafe Operation.pipe end = skipped-IsSafe msg (give tt) end (give-IsSafe msg tt)
  dry_dispatch_op-IsSafe _ end = search safe_requests

  get_operation-IsSafe : IsSafe msg (get_operation msg)
  unfolding get_operation
  get_operation-IsSafe = get_from_list-IsSafe msg operation_strings _

  -- Given that strtod uses no more bytes than there are: from a position in the message, dispatch
  -- ends at a position in the message, with a request or an exception, and reads nothing behind the
  -- end.
  pub dispatch-Within :
      (end : Bool) (p : ℕ) → p ≤ length msg → Within msg (dispatch msg platform end p)
  unfolding dispatch
  dispatch-Within end =
      >>=-IsSafe msg (get_operation msg) _ get_operation-IsSafe (λ op. dispatch_op-IsSafe op end)

  pub dry_dispatch-Within :
      (end : Bool) (p : ℕ) → p ≤ length msg → Within msg (dry_dispatch msg platform end p)
  unfolding dry_dispatch
  dry_dispatch-Within end =
      >>=-IsSafe msg (get_operation msg) _ get_operation-IsSafe
        (λ op. dry_dispatch_op-IsSafe op end)

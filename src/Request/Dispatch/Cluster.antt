-- ===== src/Request/Dispatch/Cluster.antt =====
-- vanity/request/request_handler.cpp: the requests on the cluster.
use vanity.Base.{Bool, Option, none, some}
use vanity.Std.Text.{Text}
use vanity.Request.Extractable.{Extract, give}
use vanity.Request.Objects.{get_int, get_str}
use vanity.Request.Operation.{Operation}
use vanity.Request.Call.{Call}
use vanity.Request.Exact.{both, request, skipped, to_uint16}

-- `none`: a case of another part
module _ (msg : Text) where
  unfoldable pub dispatch_cluster : Operation → Bool → Option (Extract Call)
  dispatch_cluster Operation.cluster_join end = some (
      request msg (both (get_str msg) (both (get_str msg) (both (get_str msg) (get_int msg)))) end
        (λ x. Call.cluster_join x.0 x.1.0 x.1.1.0 (to_uint16 x.1.1.1)))
  dispatch_cluster Operation.cluster_key end =
      some (request msg (give tt) end (λ u. Call.cluster_key))
  dispatch_cluster Operation.cluster_id end =
      some (request msg (give tt) end (λ u. Call.cluster_id))
  dispatch_cluster Operation.cluster_leave end =
      some (request msg (give tt) end (λ u. Call.cluster_leave))
  dispatch_cluster Operation.cluster_new end =
      some (request msg (both (get_str msg) (get_str msg)) end (λ x. Call.cluster_new x.0 x.1))
  dispatch_cluster Operation.peers end = some (request msg (give tt) end (λ u. Call.peers))
  dispatch_cluster Operation.peer_ids end = some (request msg (give tt) end (λ u. Call.peer_ids))
  dispatch_cluster Operation.peer_auth end = some (
      request msg (both (get_int msg) (both (get_str msg) (both (get_str msg) (get_str msg)))) end
        (λ x. Call.peer_auth x.0 x.1.0 x.1.1.0 x.1.1.1))
  dispatch_cluster _ end = none

  unfoldable pub dry_cluster : Operation → Bool → Option (Extract Unit)
  dry_cluster Operation.cluster_join end =
      some (skipped msg (both (get_str msg) (both (get_str msg) (get_int msg))) end)
  dry_cluster Operation.cluster_key end = some (skipped msg (give tt) end)
  dry_cluster Operation.cluster_id end = some (skipped msg (give tt) end)
  dry_cluster Operation.cluster_leave end = some (skipped msg (give tt) end)
  dry_cluster Operation.cluster_new end = some (skipped msg (get_str msg) end)
  dry_cluster Operation.peers end = some (skipped msg (give tt) end)
  dry_cluster Operation.peer_ids end = some (skipped msg (give tt) end)
  dry_cluster Operation.peer_auth end =
      some (skipped msg (both (get_int msg) (both (get_str msg) (get_str msg))) end)
  dry_cluster _ end = none

-- ===== src/Request/Agree.antt =====
-- vanity/request/request_handler.cpp: dry_dispatch skips what dispatch extracts, but for four
-- operations.
use vanity.Base.{ℕ, ◌≡◌, refl, arith, Bool, true, false}
use vanity.Std.Text.{Text}
use vanity.Request.Extractable.{
  Parsed, parsed, invalid, failed, undefined, Extract, Platform, resume,
}
use vanity.Request.Operation.{Operation}
use vanity.Request.Call.{Call}
use vanity.Request.Exact.{exact, request, skipped}
use vanity.Request.Dispatch.Server.{dispatch_server, dry_server}
use vanity.Request.Dispatch.Keys.{dispatch_keys, dry_keys}
use vanity.Request.Dispatch.Lists.{dispatch_lists, dry_lists}
use vanity.Request.Dispatch.Sets.{dispatch_sets, dry_sets}
use vanity.Request.Dispatch.Hashes.{dispatch_hashes, dry_hashes}
use vanity.Request.Dispatch.Cluster.{dispatch_cluster, dry_cluster}
use vanity.Request.Dispatch.{dispatch_op, dry_dispatch_op}

-- An extraction without its value.
abbrev pub forget : {A : Type 0} → Parsed A → Parsed Unit
forget (parsed a p) = parsed tt p
forget (invalid e p) = invalid e p
forget (failed p) = failed p
forget undefined = undefined

-- The operations that are skipped as they are dispatched.
unfoldable pub is_skipped_alike : Operation → Bool
is_skipped_alike Operation.pipe = false
is_skipped_alike Operation.cluster_join = false
is_skipped_alike Operation.cluster_new = false
is_skipped_alike Operation.peer_auth = false
is_skipped_alike _ = true

forget-resume :
    {A B : Type 0} (r : Parsed A) (f : A → B)
    → resume r (λ a p. parsed tt p) ≡ forget (resume r (λ a p. parsed (f a) p))
forget-resume (parsed a p) f = refl
forget-resume (invalid e p) f = refl
forget-resume (failed p) f = refl
forget-resume undefined f = refl

skipped-request :
    {A : Type 0} (msg : Text) (m : Extract A) (end : Bool) (f : A → Call) (p : ℕ)
    → skipped msg m end p ≡ forget (request msg m end f p)
skipped-request msg m end f p = forget-resume (exact msg m end p) f

-- For every operation but PIPE, CLUSTER_JOIN, CLUSTER_NEW and PEER_AUTH, dry_dispatch goes on at the
-- position where dispatch does, or ends with the same exception at the same position, whatever follows
-- the name of the operation.
pub dry_dispatch_op-dispatch_op :
    (msg : Text) (platform : Platform) (op : Operation) (end : Bool) (p : ℕ)
    → is_skipped_alike op ≡ true
    → dry_dispatch_op msg platform op end p ≡ forget (dispatch_op msg platform op end p)
unfolding dispatch_op dry_dispatch_op is_skipped_alike dispatch_server dispatch_keys dispatch_lists
    dispatch_sets dispatch_hashes dispatch_cluster dry_server dry_keys dry_lists dry_sets dry_hashes
    dry_cluster
dry_dispatch_op-dispatch_op msg platform Operation.pipe end p h = ground arith
dry_dispatch_op-dispatch_op msg platform Operation.cluster_join end p h = ground arith
dry_dispatch_op-dispatch_op msg platform Operation.cluster_new end p h = ground arith
dry_dispatch_op-dispatch_op msg platform Operation.peer_auth end p h = ground arith
dry_dispatch_op-dispatch_op msg platform _ end p h = search (skipped-request)

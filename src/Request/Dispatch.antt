-- ===== src/Request/Dispatch.antt =====
-- vanity/request/request_handler.cpp: RequestHandler::dispatch and dry_dispatch. A child has the cases
-- of a part of the operations.
pub mod Server
pub mod Keys
pub mod Lists
pub mod Sets
pub mod Hashes
pub mod Cluster
use vanity.Base.{Bool, Option, none, some}
use vanity.Std.Text.{Text}
use vanity.Request.Extractable.{Extract, ◌>>=◌, undefined, Platform}
use vanity.Request.Operation.{Operation, get_operation}
use vanity.Request.Call.{Call}
use vanity.Request.Dispatch.Server.{dispatch_server, dry_server}
use vanity.Request.Dispatch.Keys.{dispatch_keys, dry_keys}
use vanity.Request.Dispatch.Lists.{dispatch_lists, dry_lists}
use vanity.Request.Dispatch.Sets.{dispatch_sets, dry_sets}
use vanity.Request.Dispatch.Hashes.{dispatch_hashes, dry_hashes}
use vanity.Request.Dispatch.Cluster.{dispatch_cluster, dry_cluster}

-- The case of an operation, in the part that has one.
infixr 5 ◌or◌
abbrev pub ◌or◌ : {A : Type 0} → Option (Extract A) → Extract A → Extract A
some m or n = m
none or n = n

module _ (msg : Text) (platform : Platform) where
  unfoldable pub dispatch_op : Operation → Bool → Extract Call
  unfolding dispatch_server dispatch_keys dispatch_lists dispatch_sets dispatch_hashes
      dispatch_cluster
  dispatch_op op end =
      dispatch_server msg op end
      or dispatch_keys msg platform op end
      or dispatch_lists msg op end
      or dispatch_sets msg platform op end
      or dispatch_hashes msg platform op end
      or dispatch_cluster msg op end
      or (λ p. undefined)

  unfoldable pub dry_dispatch_op : Operation → Bool → Extract Unit
  unfolding dry_server dry_keys dry_lists dry_sets dry_hashes dry_cluster
  dry_dispatch_op op end =
      dry_server msg op end
      or dry_keys msg platform op end
      or dry_lists msg op end
      or dry_sets msg platform op end
      or dry_hashes msg platform op end
      or dry_cluster msg op end
      or (λ p. undefined)

  -- What dispatch extracts, and the method that it calls.
  unfoldable pub dispatch : Bool → Extract Call
  unfolding dispatch_op
  dispatch end = do op ← get_operation msg; dispatch_op op end

  unfoldable pub dry_dispatch : Bool → Extract Unit
  unfolding dry_dispatch_op
  dry_dispatch end = do op ← get_operation msg; dry_dispatch_op op end

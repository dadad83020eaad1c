-- ===== src/Request/Dispatch/Hashes.antt =====
-- vanity/request/request_handler.cpp: the requests on hashes.
use vanity.Base.{Bool, Option, none, some}
use vanity.Std.Text.{Text}
use vanity.Request.Extractable.{Extract, Platform}
use vanity.Request.Objects.{get_arr, get_hash, get_str}
use vanity.Request.Operation.{Operation}
use vanity.Request.Call.{Call}
use vanity.Request.Exact.{both, request, skipped}

-- `none`: a case of another part
module _ (msg : Text) where
  module _ (platform : Platform) where
    unfoldable pub dispatch_hashes : Operation → Bool → Option (Extract Call)
    dispatch_hashes Operation.hash_set end =
        some (request msg (both (get_str msg) (get_hash msg)) end (λ x. Call.hash_set x.0 x.1))
    dispatch_hashes Operation.hash_all end =
        some (request msg (get_str msg) end (λ x. Call.hash_all x))
    dispatch_hashes Operation.hash_get end =
        some (request msg (both (get_str msg) (get_str msg)) end (λ x. Call.hash_get x.0 x.1))
    dispatch_hashes Operation.hash_contains end =
        some (request msg (both (get_str msg) (get_str msg)) end (λ x. Call.hash_contains x.0 x.1))
    dispatch_hashes Operation.hash_len end =
        some (request msg (get_str msg) end (λ x. Call.hash_len x))
    dispatch_hashes Operation.hash_key_len end =
        some (request msg (both (get_str msg) (get_str msg)) end (λ x. Call.hash_key_len x.0 x.1))
    dispatch_hashes Operation.hash_remove end = some (
        request msg (both (get_str msg) (get_arr msg platform)) end (λ x. Call.hash_remove x.0 x.1))
    dispatch_hashes Operation.hash_keys end =
        some (request msg (get_str msg) end (λ x. Call.hash_keys x))
    dispatch_hashes Operation.hash_values end =
        some (request msg (get_str msg) end (λ x. Call.hash_values x))
    dispatch_hashes Operation.hash_update end =
        some (request msg (both (get_str msg) (get_hash msg)) end (λ x. Call.hash_update x.0 x.1))
    dispatch_hashes Operation.hash_many_get end = some (
        request msg (both (get_str msg) (get_arr msg platform)) end
          (λ x. Call.hash_many_get x.0 x.1))
    dispatch_hashes _ end = none

    unfoldable pub dry_hashes : Operation → Bool → Option (Extract Unit)
    dry_hashes Operation.hash_set end = some (skipped msg (both (get_str msg) (get_hash msg)) end)
    dry_hashes Operation.hash_all end = some (skipped msg (get_str msg) end)
    dry_hashes Operation.hash_get end = some (skipped msg (both (get_str msg) (get_str msg)) end)
    dry_hashes Operation.hash_contains end =
        some (skipped msg (both (get_str msg) (get_str msg)) end)
    dry_hashes Operation.hash_len end = some (skipped msg (get_str msg) end)
    dry_hashes Operation.hash_key_len end =
        some (skipped msg (both (get_str msg) (get_str msg)) end)
    dry_hashes Operation.hash_remove end =
        some (skipped msg (both (get_str msg) (get_arr msg platform)) end)
    dry_hashes Operation.hash_keys end = some (skipped msg (get_str msg) end)
    dry_hashes Operation.hash_values end = some (skipped msg (get_str msg) end)
    dry_hashes Operation.hash_update end =
        some (skipped msg (both (get_str msg) (get_hash msg)) end)
    dry_hashes Operation.hash_many_get end =
        some (skipped msg (both (get_str msg) (get_arr msg platform)) end)
    dry_hashes _ end = none

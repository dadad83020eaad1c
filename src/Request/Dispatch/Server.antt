-- ===== src/Request/Dispatch/Server.antt =====
-- vanity/request/request_handler.cpp: the requests on the server, users, transactions and channels.
use vanity.Base.{Bool, true, Option, none, some}
use vanity.Std.Text.{Text}
use vanity.Request.Extractable.{Extract, give}
use vanity.Request.Objects.{get_client_auth, get_int, get_str}
use vanity.Request.Operation.{Operation}
use vanity.Request.Call.{Call}
use vanity.Request.Exact.{both, request, skipped}

-- `none`: a case of another part
module _ (msg : Text) where
  unfoldable pub dispatch_server : Operation → Bool → Option (Extract Call)
  dispatch_server Operation.terminate end = some (request msg (give tt) true (λ u. Call.terminate))
  dispatch_server Operation.exit end = some (request msg (give tt) true (λ u. Call.exit))
  dispatch_server Operation.ping end = some (request msg (give tt) end (λ u. Call.ping))
  dispatch_server Operation.pipe end = some (give Call.pipe)
  dispatch_server Operation.bind end =
      some (request msg (both (get_str msg) (get_int msg)) end (λ x. Call.bind x.0 x.1))
  dispatch_server Operation.unbind end =
      some (request msg (both (get_str msg) (get_int msg)) end (λ x. Call.unbind x.0 x.1))
  dispatch_server Operation.add_user end =
      some (request msg (both (get_str msg) (get_str msg)) end (λ x. Call.add_user x.0 x.1))
  dispatch_server Operation.edit_user end =
      some
        (request msg (both (get_str msg) (get_client_auth msg)) end (λ x. Call.edit_user x.0 x.1))
  dispatch_server Operation.del_user end =
      some (request msg (get_str msg) end (λ x. Call.del_user x))
  dispatch_server Operation.auth end =
      some (request msg (both (get_str msg) (get_str msg)) end (λ x. Call.auth x.0 x.1))
  dispatch_server Operation.change_password end =
      some (request msg (get_str msg) end (λ x. Call.change_password x))
  dispatch_server Operation.auth_level end = some (request msg (give tt) end (λ u. Call.auth_level))
  dispatch_server Operation.username end = some (request msg (give tt) end (λ u. Call.username))
  dispatch_server Operation.switch_db end =
      some (request msg (get_int msg) end (λ x. Call.switch_db x))
  dispatch_server Operation.persist end = some (request msg (give tt) end (λ u. Call.persist))
  dispatch_server Operation.transact_begin end =
      some (request msg (give tt) end (λ u. Call.transact_begin))
  dispatch_server Operation.transact_commit end =
      some (request msg (give tt) end (λ u. Call.transact_commit))
  dispatch_server Operation.transact_discard end =
      some (request msg (give tt) end (λ u. Call.transact_discard))
  dispatch_server Operation.publish end =
      some (request msg (both (get_str msg) (get_str msg)) end (λ x. Call.publish x.0 x.1))
  dispatch_server Operation.subscribe end =
      some (request msg (get_str msg) end (λ x. Call.subscribe x))
  dispatch_server Operation.subscribed end = some (request msg (give tt) end (λ u. Call.subscribed))
  dispatch_server Operation.unsubscribe end =
      some (request msg (get_str msg) end (λ x. Call.unsubscribe x))
  dispatch_server Operation.unsubscribe_all end =
      some (request msg (give tt) end (λ u. Call.unsubscribe_all))
  dispatch_server _ end = none

  unfoldable pub dry_server : Operation → Bool → Option (Extract Unit)
  dry_server Operation.terminate end = some (skipped msg (give tt) true)
  dry_server Operation.exit end = some (skipped msg (give tt) true)
  dry_server Operation.ping end = some (skipped msg (give tt) end)
  dry_server Operation.pipe end = some (skipped msg (give tt) end)
  dry_server Operation.bind end = some (skipped msg (both (get_str msg) (get_int msg)) end)
  dry_server Operation.unbind end = some (skipped msg (both (get_str msg) (get_int msg)) end)
  dry_server Operation.add_user end = some (skipped msg (both (get_str msg) (get_str msg)) end)
  dry_server Operation.edit_user end =
      some (skipped msg (both (get_str msg) (get_client_auth msg)) end)
  dry_server Operation.del_user end = some (skipped msg (get_str msg) end)
  dry_server Operation.auth end = some (skipped msg (both (get_str msg) (get_str msg)) end)
  dry_server Operation.change_password end = some (skipped msg (get_str msg) end)
  dry_server Operation.auth_level end = some (skipped msg (give tt) end)
  dry_server Operation.username end = some (skipped msg (give tt) end)
  dry_server Operation.switch_db end = some (skipped msg (get_int msg) end)
  dry_server Operation.persist end = some (skipped msg (give tt) end)
  dry_server Operation.transact_begin end = some (skipped msg (give tt) end)
  dry_server Operation.transact_commit end = some (skipped msg (give tt) end)
  dry_server Operation.transact_discard end = some (skipped msg (give tt) end)
  dry_server Operation.publish end = some (skipped msg (both (get_str msg) (get_str msg)) end)
  dry_server Operation.subscribe end = some (skipped msg (get_str msg) end)
  dry_server Operation.subscribed end = some (skipped msg (give tt) end)
  dry_server Operation.unsubscribe end = some (skipped msg (get_str msg) end)
  dry_server Operation.unsubscribe_all end = some (skipped msg (give tt) end)
  dry_server _ end = none

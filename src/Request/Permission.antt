-- ===== src/Request/Permission.antt =====
-- vanity/client/operations.h: which operations a client may ask for.
use vanity.Base.{Bool, true, false}
use vanity.Request.Objects.{ClientAuth}
use vanity.Request.Operation.{Operation}

unfoldable pub unknown_is_permitted : Operation → Bool
unknown_is_permitted Operation.ping = true
unknown_is_permitted Operation.exit = true
unknown_is_permitted Operation.auth = true
unknown_is_permitted Operation.auth_level = true
unknown_is_permitted Operation.peer_auth = true
unknown_is_permitted _ = false

unfoldable pub user_is_permitted : Operation → Bool
user_is_permitted Operation.terminate = false
user_is_permitted Operation.bind = false
user_is_permitted Operation.unbind = false
user_is_permitted Operation.reset = false
user_is_permitted Operation.auth = false
user_is_permitted Operation.add_user = false
user_is_permitted Operation.edit_user = false
user_is_permitted Operation.del_user = false
user_is_permitted Operation.cluster_join = false
user_is_permitted Operation.cluster_key = false
user_is_permitted Operation.cluster_id = false
user_is_permitted Operation.cluster_leave = false
user_is_permitted Operation.cluster_new = false
user_is_permitted Operation.peers = false
user_is_permitted Operation.peer_ids = false
user_is_permitted Operation.peer_auth = false
user_is_permitted _ = true

unfoldable pub peer_is_permitted : Operation → Bool
peer_is_permitted Operation.bind = false
peer_is_permitted Operation.unbind = false
peer_is_permitted Operation.auth = false
peer_is_permitted Operation.change_password = false
peer_is_permitted Operation.add_user = false
peer_is_permitted Operation.edit_user = false
peer_is_permitted Operation.del_user = false
peer_is_permitted Operation.auth_level = false
peer_is_permitted Operation.username = false
peer_is_permitted Operation.transact_begin = false
peer_is_permitted Operation.transact_commit = false
peer_is_permitted Operation.transact_discard = false
peer_is_permitted Operation.publish = false
peer_is_permitted Operation.subscribe = false
peer_is_permitted Operation.subscribed = false
peer_is_permitted Operation.unsubscribe = false
peer_is_permitted Operation.unsubscribe_all = false
peer_is_permitted Operation.cluster_join = false
peer_is_permitted Operation.cluster_key = false
peer_is_permitted Operation.cluster_id = false
peer_is_permitted Operation.cluster_leave = false
peer_is_permitted Operation.cluster_new = false
peer_is_permitted Operation.peer_auth = false
peer_is_permitted _ = true

unfoldable pub admin_is_permitted : Operation → Bool
admin_is_permitted Operation.auth = false
admin_is_permitted Operation.peer_auth = false
admin_is_permitted _ = true

unfoldable pub is_permitted : Operation → ClientAuth → Bool
unfolding unknown_is_permitted user_is_permitted peer_is_permitted admin_is_permitted
is_permitted op ClientAuth.unknown = unknown_is_permitted op
is_permitted op ClientAuth.user = user_is_permitted op
is_permitted op ClientAuth.peer = peer_is_permitted op
is_permitted op ClientAuth.admin = admin_is_permitted op

-- ===== src/Request/Operation.antt =====
-- vanity/client/operations.h and vanity/request/request.cpp: the operations that a client may ask
-- for, and their names.
use vanity.Base.{List, [], ◌∷◌}
use vanity.Std.Text.{Text, codes}
use vanity.Request.Extractable.{Extract}
use vanity.Request.Objects.{peek_from_list, get_from_list}

-- operation_t
pub data Operation : Type 0 where
  exit terminate ping pipe bind unbind : Operation
  add_user edit_user del_user auth change_password auth_level : Operation
  username switch_db persist transact_begin transact_commit transact_discard : Operation
  publish subscribe subscribed unsubscribe unsubscribe_all del : Operation
  type exists reset keys copy_to move_to : Operation
  copy_to_db move_to_db set_expiry get_expiry clear_expiry get : Operation
  str_set int_set float_set incr_int incr_float str_len : Operation
  many_get list_len list_get list_set list_push_left list_push_right : Operation
  list_pop_left list_pop_right list_range list_trim list_remove set_add : Operation
  set_all set_remove set_discard set_len set_contains set_move : Operation
  set_union set_union_into set_union_len set_intersect set_intersect_into set_intersect_len :
      Operation
  set_diff set_diff_into set_diff_len hash_set hash_all hash_get : Operation
  hash_contains hash_len hash_key_len hash_remove hash_keys hash_values : Operation
  hash_update hash_many_get cluster_join cluster_key cluster_id cluster_leave : Operation
  cluster_new peers peer_ids peer_auth : Operation

-- OPERATION_T_STRINGS, where a name comes before its own prefixes
abbrev pub operation_strings : List (Operation × Text)
operation_strings =
    (Operation.exit, codes "EXIT")
    ∷ (Operation.terminate, codes "TERMINATE")
    ∷ (Operation.ping, codes "PING")
    ∷ (Operation.pipe, codes "PIPE")
    ∷ (Operation.bind, codes "BIND")
    ∷ (Operation.unbind, codes "UNBIND")
    ∷ (Operation.auth_level, codes "AUTH_LEVEL")
    ∷ (Operation.auth, codes "AUTH")
    ∷ (Operation.add_user, codes "ADD_USER")
    ∷ (Operation.edit_user, codes "EDIT_USER")
    ∷ (Operation.del_user, codes "DEL_USER")
    ∷ (Operation.change_password, codes "CHANGE_PASSWORD")
    ∷ (Operation.username, codes "USERNAME")
    ∷ (Operation.switch_db, codes "SWITCH_DB")
    ∷ (Operation.persist, codes "PERSIST")
    ∷ (Operation.transact_begin, codes "TRANSACT_BEGIN")
    ∷ (Operation.transact_commit, codes "TRANSACT_COMMIT")
    ∷ (Operation.transact_discard, codes "TRANSACT_DISCARD")
    ∷ (Operation.publish, codes "PUBLISH")
    ∷ (Operation.subscribed, codes "SUBSCRIBED")
    ∷ (Operation.subscribe, codes "SUBSCRIBE")
    ∷ (Operation.unsubscribe_all, codes "UNSUBSCRIBE_ALL")
    ∷ (Operation.unsubscribe, codes "UNSUBSCRIBE")
    ∷ (Operation.del, codes "DEL")
    ∷ (Operation.type, codes "TYPE")
    ∷ (Operation.exists, codes "EXISTS")
    ∷ (Operation.reset, codes "RESET")
    ∷ (Operation.keys, codes "KEYS")
    ∷ (Operation.copy_to_db, codes "COPY_TO_DB")
    ∷ (Operation.move_to_db, codes "MOVE_TO_DB")
    ∷ (Operation.copy_to, codes "COPY_TO")
    ∷ (Operation.move_to, codes "MOVE_TO")
    ∷ (Operation.set_expiry, codes "SET_EXPIRY")
    ∷ (Operation.get_expiry, codes "GET_EXPIRY")
    ∷ (Operation.clear_expiry, codes "CLEAR_EXPIRY")
    ∷ (Operation.get, codes "GET")
    ∷ (Operation.str_set, codes "STR_SET")
    ∷ (Operation.int_set, codes "INT_SET")
    ∷ (Operation.float_set, codes "FLOAT_SET")
    ∷ (Operation.incr_int, codes "INCR_INT")
    ∷ (Operation.incr_float, codes "INCR_FLOAT")
    ∷ (Operation.str_len, codes "STR_LEN")
    ∷ (Operation.many_get, codes "MANY_GET")
    ∷ (Operation.list_len, codes "LIST_LEN")
    ∷ (Operation.list_get, codes "LIST_GET")
    ∷ (Operation.list_set, codes "LIST_SET")
    ∷ (Operation.list_push_left, codes "LIST_PUSH_LEFT")
    ∷ (Operation.list_push_right, codes "LIST_PUSH_RIGHT")
    ∷ (Operation.list_pop_left, codes "LIST_POP_LEFT")
    ∷ (Operation.list_pop_right, codes "LIST_POP_RIGHT")
    ∷ (Operation.list_range, codes "LIST_RANGE")
    ∷ (Operation.list_trim, codes "LIST_TRIM")
    ∷ (Operation.list_remove, codes "LIST_REMOVE")
    ∷ (Operation.set_add, codes "SET_ADD")
    ∷ (Operation.set_all, codes "SET_ALL")
    ∷ (Operation.set_remove, codes "SET_REMOVE")
    ∷ (Operation.set_discard, codes "SET_DISCARD")
    ∷ (Operation.set_len, codes "SET_LEN")
    ∷ (Operation.set_contains, codes "SET_CONTAINS")
    ∷ (Operation.set_move, codes "SET_MOVE")
    ∷ (Operation.set_union_into, codes "SET_UNION_INTO")
    ∷ (Operation.set_union_len, codes "SET_UNION_LEN")
    ∷ (Operation.set_union, codes "SET_UNION")
    ∷ (Operation.set_intersect_into, codes "SET_INTERSECT_INTO")
    ∷ (Operation.set_intersect_len, codes "SET_INTERSECT_LEN")
    ∷ (Operation.set_intersect, codes "SET_INTERSECT")
    ∷ (Operation.set_diff_into, codes "SET_DIFF_INTO")
    ∷ (Operation.set_diff_len, codes "SET_DIFF_LEN")
    ∷ (Operation.set_diff, codes "SET_DIFF")
    ∷ (Operation.hash_set, codes "HASH_SET")
    ∷ (Operation.hash_all, codes "HASH_ALL")
    ∷ (Operation.hash_get, codes "HASH_GET")
    ∷ (Operation.hash_contains, codes "HASH_CONTAINS")
    ∷ (Operation.hash_len, codes "HASH_LEN")
    ∷ (Operation.hash_key_len, codes "HASH_KEY_LEN")
    ∷ (Operation.hash_remove, codes "HASH_REMOVE")
    ∷ (Operation.hash_keys, codes "HASH_KEYS")
    ∷ (Operation.hash_values, codes "HASH_VALUES")
    ∷ (Operation.hash_update, codes "HASH_UPDATE")
    ∷ (Operation.hash_many_get, codes "HASH_MANY_GET")
    ∷ (Operation.cluster_join, codes "CLUSTER_JOIN")
    ∷ (Operation.cluster_key, codes "CLUSTER_KEY")
    ∷ (Operation.cluster_id, codes "CLUSTER_ID")
    ∷ (Operation.cluster_leave, codes "CLUSTER_LEAVE")
    ∷ (Operation.cluster_new, codes "CLUSTER_NEW")
    ∷ (Operation.peers, codes "PEERS")
    ∷ (Operation.peer_ids, codes "PEER_IDS")
    ∷ (Operation.peer_auth, codes "PEER_AUTH")
    ∷ []

module _ (msg : Text) where
  unfoldable pub get_operation : Extract Operation
  unfolding get_from_list
  get_operation = get_from_list msg operation_strings (codes "invalid operation")

  unfoldable pub peek_operation : Extract Operation
  unfolding peek_from_list
  peek_operation = peek_from_list msg operation_strings (codes "invalid operation")

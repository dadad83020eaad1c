-- ===== src/Request/Call.antt =====
-- vanity/request/request_handler.h: the requests, with what is extracted for them.
use vanity.Base.{ℕ, ℤ, List}
use vanity.Std.Text.{Text}
use vanity.Std.Map.{Map}
use vanity.Std.Set.{Set}
use vanity.Request.Objects.{ClientAuth}

-- The methods request_... of RequestHandler, with their arguments. A pipe reads its requests itself.
pub data Call : Type 0 where
  exit terminate ping pipe auth_level : Call
  username persist transact_begin transact_commit transact_discard : Call
  subscribed unsubscribe_all reset keys cluster_key : Call
  cluster_id cluster_leave peers peer_ids : Call
  bind unbind copy_to_db move_to_db int_set : Text → ℤ → Call
  incr_int list_get list_pop_left list_pop_right set_remove : Text → ℤ → Call
  add_user auth publish copy_to move_to : Text → Text → Call
  str_set set_contains set_difference set_difference_len hash_get : Text → Text → Call
  hash_contains hash_key_len cluster_new : Text → Text → Call
  edit_user : Text → ClientAuth → Call
  del_user change_password subscribe unsubscribe del : Text → Call
  type exists get_expiry clear_expiry get : Text → Call
  str_len list_len set_all set_len hash_all : Text → Call
  hash_len hash_keys hash_values : Text → Call
  switch_db : ℤ → Call
  set_expiry float_set incr_float : Text → ℕ → Call
  many_get set_union set_union_len set_intersection set_intersection_len : List Text → Call
  list_set : Text → ℤ → Text → Call
  list_push_left list_push_right set_union_into set_intersection_into hash_remove :
      Text → List Text → Call
  hash_many_get : Text → List Text → Call
  list_range list_trim : Text → ℤ → ℤ → Call
  list_remove : Text → Text → ℤ → Call
  set_add set_discard : Text → Set → Call
  set_move set_difference_into : Text → Text → Text → Call
  hash_set hash_update : Text → Map Text → Call
  cluster_join : Text → Text → Text → ℕ → Call
  peer_auth : ℤ → Text → Text → Text → Call

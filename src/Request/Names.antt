-- ===== src/Request/Names.antt =====
-- vanity/client/operations.h and vanity/request/request.cpp: an operation is read from its name.
use vanity.Base.{
  ℕ, ◌+◌, ◌^◌, ◌≤◌, ◌<◌, ◌≡◌, refl, Bool, true, false, ◌&&◌, ◌||◌, List, [], ◌∷◌, ◌++◌, leb, ◌==◌,
  if◌then◌else◌, length, drop, take, arith, Option, none, some, length-drop, length-append, ap,
}
use vanity.Std.Text.{Text, codes, text_eq}
use vanity.Std.Convert.{spaces, is_space}
use vanity.Request.Extractable.{parsed, invalid, Extract, advance, compare, skip_whitespace}
use vanity.Request.Objects.{first_of, get_from_list}
use vanity.Request.Operation.{Operation, operation_strings, get_operation}

-- The name of an operation.
abbrev pub operation_name : Operation → Text
operation_name Operation.exit = codes "EXIT"
operation_name Operation.terminate = codes "TERMINATE"
operation_name Operation.ping = codes "PING"
operation_name Operation.pipe = codes "PIPE"
operation_name Operation.bind = codes "BIND"
operation_name Operation.unbind = codes "UNBIND"
operation_name Operation.add_user = codes "ADD_USER"
operation_name Operation.edit_user = codes "EDIT_USER"
operation_name Operation.del_user = codes "DEL_USER"
operation_name Operation.auth = codes "AUTH"
operation_name Operation.change_password = codes "CHANGE_PASSWORD"
operation_name Operation.auth_level = codes "AUTH_LEVEL"
operation_name Operation.username = codes "USERNAME"
operation_name Operation.switch_db = codes "SWITCH_DB"
operation_name Operation.persist = codes "PERSIST"
operation_name Operation.transact_begin = codes "TRANSACT_BEGIN"
operation_name Operation.transact_commit = codes "TRANSACT_COMMIT"
operation_name Operation.transact_discard = codes "TRANSACT_DISCARD"
operation_name Operation.publish = codes "PUBLISH"
operation_name Operation.subscribe = codes "SUBSCRIBE"
operation_name Operation.subscribed = codes "SUBSCRIBED"
operation_name Operation.unsubscribe = codes "UNSUBSCRIBE"
operation_name Operation.unsubscribe_all = codes "UNSUBSCRIBE_ALL"
operation_name Operation.del = codes "DEL"
operation_name Operation.type = codes "TYPE"
operation_name Operation.exists = codes "EXISTS"
operation_name Operation.reset = codes "RESET"
operation_name Operation.keys = codes "KEYS"
operation_name Operation.copy_to = codes "COPY_TO"
operation_name Operation.move_to = codes "MOVE_TO"
operation_name Operation.copy_to_db = codes "COPY_TO_DB"
operation_name Operation.move_to_db = codes "MOVE_TO_DB"
operation_name Operation.set_expiry = codes "SET_EXPIRY"
operation_name Operation.get_expiry = codes "GET_EXPIRY"
operation_name Operation.clear_expiry = codes "CLEAR_EXPIRY"
operation_name Operation.get = codes "GET"
operation_name Operation.str_set = codes "STR_SET"
operation_name Operation.int_set = codes "INT_SET"
operation_name Operation.float_set = codes "FLOAT_SET"
operation_name Operation.incr_int = codes "INCR_INT"
operation_name Operation.incr_float = codes "INCR_FLOAT"
operation_name Operation.str_len = codes "STR_LEN"
operation_name Operation.many_get = codes "MANY_GET"
operation_name Operation.list_len = codes "LIST_LEN"
operation_name Operation.list_get = codes "LIST_GET"
operation_name Operation.list_set = codes "LIST_SET"
operation_name Operation.list_push_left = codes "LIST_PUSH_LEFT"
operation_name Operation.list_push_right = codes "LIST_PUSH_RIGHT"
operation_name Operation.list_pop_left = codes "LIST_POP_LEFT"
operation_name Operation.list_pop_right = codes "LIST_POP_RIGHT"
operation_name Operation.list_range = codes "LIST_RANGE"
operation_name Operation.list_trim = codes "LIST_TRIM"
operation_name Operation.list_remove = codes "LIST_REMOVE"
operation_name Operation.set_add = codes "SET_ADD"
operation_name Operation.set_all = codes "SET_ALL"
operation_name Operation.set_remove = codes "SET_REMOVE"
operation_name Operation.set_discard = codes "SET_DISCARD"
operation_name Operation.set_len = codes "SET_LEN"
operation_name Operation.set_contains = codes "SET_CONTAINS"
operation_name Operation.set_move = codes "SET_MOVE"
operation_name Operation.set_union = codes "SET_UNION"
operation_name Operation.set_union_into = codes "SET_UNION_INTO"
operation_name Operation.set_union_len = codes "SET_UNION_LEN"
operation_name Operation.set_intersect = codes "SET_INTERSECT"
operation_name Operation.set_intersect_into = codes "SET_INTERSECT_INTO"
operation_name Operation.set_intersect_len = codes "SET_INTERSECT_LEN"
operation_name Operation.set_diff = codes "SET_DIFF"
operation_name Operation.set_diff_into = codes "SET_DIFF_INTO"
operation_name Operation.set_diff_len = codes "SET_DIFF_LEN"
operation_name Operation.hash_set = codes "HASH_SET"
operation_name Operation.hash_all = codes "HASH_ALL"
operation_name Operation.hash_get = codes "HASH_GET"
operation_name Operation.hash_contains = codes "HASH_CONTAINS"
operation_name Operation.hash_len = codes "HASH_LEN"
operation_name Operation.hash_key_len = codes "HASH_KEY_LEN"
operation_name Operation.hash_remove = codes "HASH_REMOVE"
operation_name Operation.hash_keys = codes "HASH_KEYS"
operation_name Operation.hash_values = codes "HASH_VALUES"
operation_name Operation.hash_update = codes "HASH_UPDATE"
operation_name Operation.hash_many_get = codes "HASH_MANY_GET"
operation_name Operation.cluster_join = codes "CLUSTER_JOIN"
operation_name Operation.cluster_key = codes "CLUSTER_KEY"
operation_name Operation.cluster_id = codes "CLUSTER_ID"
operation_name Operation.cluster_leave = codes "CLUSTER_LEAVE"
operation_name Operation.cluster_new = codes "CLUSTER_NEW"
operation_name Operation.peers = codes "PEERS"
operation_name Operation.peer_ids = codes "PEER_IDS"
operation_name Operation.peer_auth = codes "PEER_AUTH"

-- The bytes that names are made of.
unfoldable pub in_name : ℕ → Bool
in_name c = (leb 65 c && leb c 90) || c == 95

unfoldable is_name : Text → Bool
is_name [] = true
is_name (c ∷ t) = in_name c && is_name t

-- What does not go on with a name.
abbrev pub EndsName : Text → Type 0
EndsName [] = Unit
EndsName (c ∷ t) = in_name c ≡ false

unfoldable is_prefix : Text → Text → Bool
is_prefix [] s = true
is_prefix (c ∷ u) [] = false
is_prefix (c ∷ u) (d ∷ s) = d == c && is_prefix u s

-- The first string of a list that a name begins with.
unfoldable first_prefix : {A : Type 0} → List (A × Text) → Text → Option (A × Text)
first_prefix [] s = none
first_prefix ((a, u) ∷ l) s =
    let rest = first_prefix l s in if is_prefix u s then some (a, u) else rest

unfoldable are_names : {A : Type 0} → List (A × Text) → Bool
are_names [] = true
are_names ((a, u) ∷ l) = is_name u && are_names l

text_eq-take :
    (u s t : Text)
    → is_name u ≡ true
    → EndsName t
    → text_eq (take (length u) (s ++ t)) u ≡ is_prefix u s
unfolding is_name is_prefix text_eq
text_eq-take [] s t h k = ground arith
text_eq-take (c ∷ u) [] [] h k = ground arith
text_eq-take (c ∷ u) [] (d ∷ t) h k = ground arith
text_eq-take (c ∷ u) (d ∷ s) t h k = ground (arith, text_eq-take u s t)

abbrev found_at : {A : Type 0} → Option (A × Text) → Text → Extract (A × Text)
found_at none err p = invalid err p
found_at (some m) err p = parsed m p

first_of-name :
    {A : Type 0} (msg : Text) (l : List (A × Text)) (err s t : Text) (p : ℕ)
    → are_names l ≡ true
    → EndsName t
    → p ≤ length msg
    → drop p msg ≡ s ++ t
    → first_of msg l err p ≡ found_at (first_prefix l s) err p
unfolding first_of first_prefix compare are_names
first_of-name msg [] err s t p h k hp e = refl
first_of-name msg ((a, u) ∷ l) err s t p h k hp e =
    ground (arith, first_of-name msg l err s t p, text_eq-take u s t)

names_lem : are_names operation_strings ≡ true
unfolding are_names is_name in_name
names_lem = refl

first_prefix-name :
    (op : Operation)
    → first_prefix operation_strings (operation_name op) ≡ some (op, operation_name op)
unfolding first_prefix is_prefix
first_prefix-name Operation.exit = refl
first_prefix-name _ = refl

-- A name begins with no white space.
spaces-name : (op : Operation) (t : Text) → spaces (operation_name op ++ t) ≡ 0
unfolding spaces is_space
spaces-name Operation.exit t = refl
spaces-name _ t = refl

advance_small :
    (msg s t : Text) (p : ℕ)
    → length msg < 2 ^ 64
    → p ≤ length msg
    → drop p msg ≡ s ++ t
    → advance (length s) p ≡ parsed tt (p + length s)
unfolding advance
advance_small msg s t p small hp h =
    ground (arith, length-drop p msg, length-append s t, ap length h)

-- In a message below 2 ^ 64 bytes that goes on with the name of an operation at a position, and then
-- with no letter and no underscore, get_operation reads that operation, and goes on behind its name.
pub get_operation-name :
    (msg t : Text) (op : Operation) (p : ℕ)
    → length msg < 2 ^ 64
    → p ≤ length msg
    → drop p msg ≡ operation_name op ++ t
    → EndsName t
    → get_operation msg p ≡ parsed op (p + length (operation_name op))
unfolding get_operation get_from_list skip_whitespace
get_operation-name msg t op p small hp h k =
    let s = operation_name op in
    let found =
      first_of-name msg operation_strings (codes "invalid operation") s t p names_lem k hp h in
    let no_space : p + 0 ≡ p = omega arith in
    let n : advance (length s) p ≡ parsed tt (p + length s) = advance_small msg s t p small hp h in
    rw (h, spaces-name op t, no_space, found, first_prefix-name op, n) refl

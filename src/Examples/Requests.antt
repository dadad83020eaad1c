-- ===== src/Examples/Requests.antt =====
-- Requests and responses, on small messages.
use vanity.Base.{ℕ, suc, ◌+◌, ◌≡◌, ◌↔◌, refl, true, false, [], ◌∷◌, ◌++◌, length, replicate, arith}
use vanity.Std.Text.{Text, codes, text_eq}
use vanity.Std.Map.{Map, find}
use vanity.Std.Convert.{
  converted, value_of, count_of, to_string, digits, spaces, is_space, is_digit, strtoull, convert,
  sign_size, is_negative,
}
use vanity.Request.Extractable.{
  parsed, Platform, current, end, advance, compare, has_up_to, expect, skip_whitespace, ensure_end,
  ensure_end_if, ensure_not_end, take_number,
}
use vanity.Request.Objects.{
  first_of, peek_from_list, get_from_list, rest_of_message, get_len, take_str, substr, get_str,
  get_strs, get_list, get_hash,
}
use vanity.Request.Operation.{Operation, get_operation, peek_operation}
use vanity.Request.Names.{operation_name, in_name, get_operation-name}
use vanity.Request.Call.{Call}
use vanity.Request.Bounds.{Within, Uses, length-count_of}
use vanity.Request.Dispatch.{dispatch_op, dry_dispatch_op, dispatch}
use vanity.Request.Dispatch.Keys.{dispatch_keys}
use vanity.Request.Dispatch.Server.{dispatch_server}
use vanity.Request.DispatchBounds.{dispatch-Within}
use vanity.Request.Ends.{dispatch_op-ends}
use vanity.Request.Agree.{is_skipped_alike, forget, dry_dispatch_op-dispatch_op}
use vanity.Request.Serving.{Handlers, returned, too_deep, request_pipe}
use vanity.Request.Recursion.{request_pipe-too_deep}
use vanity.Response.{
  append, serialize_length, serialize_string_body, serialize_bodies, serialize_pairs,
  serialize_list, serialize_hash,
}
use vanity.Response.Aggregates.{has_zero, append_complete}
use vanity.Response.RoundTrip.{get_list-serialize_list, get_hash-serialize_hash}
use vanity.Response.Backwards.{get_strs-negative}
use vanity.Examples.{a, b, pairs}

-- Doubles are read as numbers without a point, and every vector has space.
abbrev platform : Platform
platform = record { strtod = λ t. converted (value_of 0 t) (count_of t); can_reserve = λ n. true }

platform-Uses : (t : Text) → Uses (length t) (platform.strtod t)
platform-Uses t = length-count_of t

-- A server that counts what it is asked for, and permits it.
abbrev counter : Handlers ℕ
counter = record {
  has_perm = λ s op. true;
  call = λ c s. returned (suc s) (codes "OK" ∷ []);
  length_error = codes "vector::reserve";
}

abbrev message : Text
message = codes "GET(3)abc"

dispatch_example : Within message (dispatch message platform true 0)
dispatch_example = dispatch-Within message platform platform-Uses true 0 (omega arith)

agree_example :
    dry_dispatch_op message platform Operation.get true 3
    ≡ forget (dispatch_op message platform Operation.get true 3)
unfolding is_skipped_alike
agree_example = dry_dispatch_op-dispatch_op message platform Operation.get true 3 refl

name_example :
    get_operation message 0 ≡ parsed Operation.get (0 + length (operation_name Operation.get))
unfolding in_name
name_example =
    get_operation-name message (codes "(3)abc") Operation.get 0 (omega arith) (omega arith) refl
      refl

ends_example : 9 ≡ length message
unfolding dispatch_op dispatch_keys dispatch_server get_str get_len take_str substr rest_of_message
    current end advance has_up_to expect skip_whitespace ensure_end ensure_end_if ensure_not_end
    take_number strtoull convert spaces is_space is_digit sign_size is_negative value_of count_of
ends_example =
    dispatch_op-ends message platform platform-Uses Operation.get 3 9 (Call.get (codes "abc"))
      (ground arith) (omega arith) refl

-- A list and a hash, between other bytes.
abbrev list_message : Text
list_message = codes "x:LIST(2)[(1)a(1)b]y"

abbrev hash_message : Text
hash_message = codes "x:HASH(2){(1)a(1)b(1)b(1)c}"

list_example :
    get_list list_message 6 ≡ parsed (a ∷ b ∷ []) (1 + length (serialize_list (a ∷ b ∷ [])))
unfolding serialize_list serialize_length serialize_string_body serialize_bodies to_string digits
list_example =
    get_list-serialize_list list_message (codes "y") (a ∷ b ∷ []) 1 (omega arith) (omega arith) refl

hash_example :
    (r : Map Text) × (get_hash hash_message 6 ≡ parsed r (1 + length (serialize_hash pairs)))
    × ((k : Text) → find k r ≡ find k pairs)
unfolding serialize_hash serialize_length serialize_string_body serialize_pairs to_string digits
hash_example = get_hash-serialize_hash hash_message [] pairs 1 (omega arith) (omega arith) refl

-- A list of 2 ^ 64 - 1 strings in 28 bytes.
abbrev endless_list : Text
endless_list = codes "(18446744073709551615)[(-4)x"

negative_example : get_strs endless_list 3 23 ≡ parsed (replicate 3 (codes "x")) 23
unfolding to_string digits
negative_example =
    get_strs-negative endless_list (omega arith) 3 23 4 (codes "x") (omega arith) (omega arith) refl
      (omega arith) refl

-- A pipe, whose requests are served from position 7: the second is not a request.
abbrev piped : Text
piped = codes "PIPE(2)GET(3)abcPUT"

-- The key of the GET is read as all that follows the message, and leads back to its begin.
abbrev endless_pipe : Text
endless_pipe = codes "PIPE(2)GET(-15)"

recursion_example : request_pipe counter endless_pipe platform 100 0 4 ≡ too_deep
unfolding peek_operation peek_from_list get_operation get_from_list skip_whitespace first_of compare
    text_eq spaces is_space dispatch dispatch_op dispatch_keys dispatch_server get_str get_len
    take_str substr rest_of_message current end advance has_up_to expect ensure_end ensure_end_if
    ensure_not_end take_number strtoull convert is_digit sign_size is_negative value_of count_of
recursion_example =
    request_pipe-too_deep counter endless_pipe platform (λ s. refl) (λ s. refl) 0 4 7 0 refl
      (λ end. refl) refl refl [] refl 100 0

zero_example :
    (append (codes "OK:AGG(1)") (codes "OK:STR(1)" ++ 0 ∷ [])
      ≡ codes "OK:AGG(1)" ++ (codes "OK:STR(1)" ++ 0 ∷ []))
    ↔ (has_zero (codes "OK:STR(1)" ++ 0 ∷ []) ≡ false)
zero_example = append_complete (codes "OK:AGG(1)") (codes "OK:STR(1)" ++ 0 ∷ [])

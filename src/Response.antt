-- ===== src/Response.antt =====
-- vanity/response: response.h, response.cpp, response_server.h, aggregate_response.h and the body of
-- a sendable.h. A response is its bytes, without the length field that goes before them.
pub mod Reading
pub mod Aggregates
pub mod Containers
pub mod RoundTrip
pub mod Backwards
use vanity.Base.{
  ℕ, zero, suc, ◌^◌, ◌%◌, ℤ, pos, negsuc, Bool, true, false, Option, none, some, List, [], ◌∷◌,
  ◌++◌, length, if◌then◌else◌, ◌==◌,
}
use vanity.Std.Text.{Text, codes}
use vanity.Std.Map.{Map}
use vanity.Std.Set.{Set}
use vanity.Std.Convert.{to_string, int_to_string}
use vanity.Operations.{Data, string_t, int_t, float_t, list_t, set_t, hash_t}
use vanity.Request.Objects.{ClientAuth}

-- Response::Status
pub data Status : Type 0 where
  ok null pong denied error bad_type bad_request internal_error async : Status

-- operator<<(Status), with status_value
unfoldable pub status_text : Status → Text
status_text ok = codes "OK"
status_text null = codes "NULL"
status_text pong = codes "PONG"
status_text denied = codes "DENIED"
status_text error = codes "ERROR"
status_text bad_type = codes "BAD_TYPE"
status_text bad_request = codes "BAD_REQUEST"
status_text internal_error = codes "INTERNAL_ERROR"
status_text async = codes "ASYNC"

unfoldable pub serialize_length : ℕ → Text
serialize_length n = 40 ∷ (to_string n ++ 41 ∷ [])

unfoldable pub serialize_string_body : Text → Text
serialize_string_body s = serialize_length (length s) ++ s

unfoldable pub serialize_bodies : List Text → Text
serialize_bodies [] = []
serialize_bodies (s ∷ l) = serialize_string_body s ++ serialize_bodies l

unfoldable pub serialize_pairs : Map Text → Text
serialize_pairs [] = []
serialize_pairs ((k, v) ∷ m) =
    serialize_string_body k ++ serialize_string_body v ++ serialize_pairs m

-- Each type with what it begins with (type_to_string).
unfoldable pub serialize_bool : Bool → Text
serialize_bool b = codes ":BOOL" ++ (if b then codes "true" else codes "false")

unfoldable pub serialize_string : Text → Text
serialize_string s = codes ":STR" ++ serialize_string_body s

unfoldable pub serialize_int : ℤ → Text
serialize_int n = codes ":INT" ++ int_to_string n

-- a container between brackets, after its length
abbrev pub bracketed : ℕ → ℕ → ℕ → Text → Text
bracketed o n c body = serialize_length n ++ (o ∷ (body ++ c ∷ []))

unfoldable pub serialize_list : List Text → Text
serialize_list l = codes ":LIST" ++ bracketed 91 (length l) 93 (serialize_bodies l)

unfoldable pub serialize_set : Set → Text
serialize_set s = codes ":SET" ++ bracketed 123 (length s) 125 (serialize_bodies s)

unfoldable pub serialize_hash : Map Text → Text
serialize_hash h = codes ":HASH" ++ bracketed 123 (length h) 125 (serialize_pairs h)

unfoldable pub serialize_arr : List Text → Text
serialize_arr l = codes ":ARR" ++ bracketed 91 (length l) 93 (serialize_bodies l)

unfoldable pub serialize_auth : ClientAuth → Text
serialize_auth ClientAuth.unknown = codes ":AUTH_LEVELUNKNOWN"
serialize_auth ClientAuth.user = codes ":AUTH_LEVELUSER"
serialize_auth ClientAuth.admin = codes ":AUTH_LEVELADMIN"
serialize_auth ClientAuth.peer = codes ":AUTH_LEVELPEER"

unfoldable pub serialize_error : Text → Text
serialize_error e = codes ":ERR" ++ serialize_string_body e

-- Given std::to_string of a double.
module _ (float_to_string : ℕ → Text) where
  unfoldable pub serialize_float : ℕ → Text
  serialize_float x = codes ":FLOAT" ++ float_to_string x

  -- serialize(primary_serialize_type)
  unfoldable pub serialize_data : Data → Text
  serialize_data (string_t s) = serialize_string s
  serialize_data (int_t n) = serialize_int n
  serialize_data (float_t x) = serialize_float x
  serialize_data (list_t l) = serialize_list l
  serialize_data (set_t s) = serialize_set s
  serialize_data (hash_t h) = serialize_hash h

-- An empty optional is of type NULL.
abbrev pub serialize_optional : {A : Type 0} → (A → Text) → Option A → Text
serialize_optional f none = codes ":NULL"
serialize_optional f (some a) = f a

abbrev pub serialize_each : {A : Type 0} → (A → Text) → List A → Text
serialize_each f [] = []
serialize_each f (a ∷ l) = f a ++ serialize_each f l

abbrev pub serialize_tuple : {A : Type 0} → (A → Text) → List A → Text
serialize_tuple f l = codes ":TUPLE" ++ bracketed 40 (length l) 41 (serialize_each f l)

-- ResponseServer: responses with a value, with an error, and without either
unfoldable pub value_response : Status → Text → Text
value_response st value = status_text st ++ value

unfoldable pub empty_response : Status → Text
empty_response st = status_text st

unfoldable pub error_response : Status → Text → Text
error_response st body = status_text st ++ serialize_error body

-- A C string ends at its first zero byte.
unfoldable pub c_string : Text → Text
c_string [] = []
c_string (c ∷ t) = let rest = c_string t in if c == 0 then [] else c ∷ rest

-- AggregateResponse(size), and append, which adds `body.data()`
unfoldable pub aggregate : ℕ → Text
aggregate n = status_text ok ++ codes ":AGG" ++ serialize_length n

unfoldable pub append : Text → Text → Text
append aggregated body = aggregated ++ c_string body

unfoldable pub append_all : Text → List Text → Text
append_all aggregated [] = aggregated
append_all aggregated (b ∷ bodies) = append_all (append aggregated b) bodies

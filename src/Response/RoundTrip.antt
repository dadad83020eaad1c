-- ===== src/Response/RoundTrip.antt =====
-- What vanity/response/response.cpp writes, vanity/request/extractable.cpp reads.
use vanity.Base.{
  ℕ, ◌+◌, ◌^◌, ◌≤◌, ◌<◌, ◌≡◌, ap, ◌∙◌, List, [], ◌∷◌, ◌++◌, length, drop, arith, length-append,
  if◌then◌else◌,
}
use vanity.Std.Text.{Text, codes, eq_iff}
use vanity.Std.Map.{Map, find, contains, find-assign}
use vanity.Std.Set.{Set, member, merge, member-merge}
use vanity.Request.Extractable.{parsed}
use vanity.Request.Objects.{get_str, get_list, get_set, get_hash, emplace}
use vanity.Response.{
  serialize_length, serialize_string_body, serialize_bodies, serialize_pairs, bracketed,
  serialize_string, serialize_list, serialize_set, serialize_hash,
}
use vanity.Response.Reading.{drop_past, past_within, get_str_at}
use vanity.Response.Containers.{emplace_all, get_list_at, get_set_at, get_hash_at}

-- There are no more elements than bytes.
length-serialize_bodies : (l : List Text) → length l ≤ length (serialize_bodies l)
unfolding serialize_bodies serialize_string_body serialize_length
length-serialize_bodies [] = ground arith
length-serialize_bodies (s ∷ l) =
    let b = serialize_length (length s) in
    omega (
      arith,
      length-serialize_bodies l,
      length-append (b ++ s) (serialize_bodies l),
      length-append b s,
    )

length-serialize_pairs : (h : Map Text) → length h ≤ length (serialize_pairs h)
unfolding serialize_pairs serialize_string_body serialize_length
length-serialize_pairs [] = ground arith
length-serialize_pairs ((k, v) ∷ h) =
    let b = serialize_length (length k) in
    let d = serialize_length (length v) ++ v in
    omega (
      arith,
      length-serialize_pairs h,
      length-append (b ++ k ++ d) (serialize_pairs h),
      length-append (b ++ k) d,
      length-append b k,
    )

-- The value that is found is that of the first pair, in either map.
find-emplace_all :
    (x : Text) (acc h : Map Text)
    → find x (emplace_all acc h) ≡ (if contains x acc then find x acc else find x h)
unfolding emplace_all emplace find
find-emplace_all x acc [] = ground arith
find-emplace_all x acc ((k, v) ∷ h) =
    ground (arith, find-assign k x v acc, find-emplace_all x (emplace k v acc) h, eq_iff k x)

-- In a message below 2 ^ 64 bytes that goes on with the serialized form of a string at a position,
-- get_str reads that string behind the type, and goes on behind the string.
pub get_str-serialize_string :
    (msg s t : Text) (p : ℕ)
    → length msg < 2 ^ 64
    → p + 4 ≤ length msg
    → drop p msg ≡ serialize_string s ++ t
    → get_str msg (p + 4) ≡ parsed s (p + length (serialize_string s))
unfolding serialize_string
get_str-serialize_string msg s t p small hp h =
    let k : p + 4 + length (serialize_string_body s) ≡ p + length (serialize_string s) =
      omega arith in
    get_str_at msg small (p + 4) s t hp
      (drop_past (codes ":STR") msg p (serialize_string_body s ++ t) h)
    ∙ ap (λ q. parsed s q) k

count_small :
    (o n c : ℕ) (body msg t : Text) (p : ℕ)
    → n ≤ length body
    → length msg < 2 ^ 64
    → p ≤ length msg
    → drop p msg ≡ bracketed o n c body ++ t
    → n < 2 ^ 64
count_small o n c body msg t p hn small hp h = omega (
  arith,
  past_within (bracketed o n c body) msg p t hp h,
  length-append (serialize_length n) (o ∷ (body ++ c ∷ [])),
  length-append body (c ∷ []),
)

-- The same for a list and get_list.
pub get_list-serialize_list :
    (msg t : Text) (l : List Text) (p : ℕ)
    → length msg < 2 ^ 64
    → p + 5 ≤ length msg
    → drop p msg ≡ serialize_list l ++ t
    → get_list msg (p + 5) ≡ parsed l (p + length (serialize_list l))
unfolding serialize_list
get_list-serialize_list msg t l p small hp h =
    let b = serialize_bodies l in
    let body = bracketed 91 (length l) 93 b in
    let e = drop_past (codes ":LIST") msg p (body ++ t) h in
    let n = count_small 91 (length l) 93 b msg t (p + 5) (length-serialize_bodies l) small hp e in
    let k : p + 5 + length body ≡ p + length (serialize_list l) = omega arith in
    get_list_at msg small (p + 5) t hp l n e ∙ ap (λ q. parsed l q) k

-- In a message below 2 ^ 64 bytes that goes on with the serialized form of a set at a position,
-- get_set reads a set with the same elements behind the type, and goes on behind the set.
pub get_set-serialize_set :
    (msg t : Text) (s : Set) (p : ℕ)
    → length msg < 2 ^ 64
    → p + 4 ≤ length msg
    → drop p msg ≡ serialize_set s ++ t
    → (r : Set) × (get_set msg (p + 4) ≡ parsed r (p + length (serialize_set s)))
      × ((x : Text) → member x r ≡ member x s)
unfolding serialize_set member
get_set-serialize_set msg t s p small hp h =
    let b = serialize_bodies s in
    let body = bracketed 123 (length s) 125 b in
    let e = drop_past (codes ":SET") msg p (body ++ t) h in
    let n = count_small 123 (length s) 125 b msg t (p + 4) (length-serialize_bodies s) small hp e in
    let k : p + 4 + length body ≡ p + length (serialize_set s) = omega arith in
    (
      merge [] s,
      get_set_at msg small (p + 4) t hp s n e ∙ ap (λ q. parsed (merge [] s) q) k,
      λ x. member-merge x s [],
    )

-- In a message below 2 ^ 64 bytes that goes on with the serialized form of a hash at a position,
-- get_hash reads a hash with the same value for every key behind the type, and goes on behind the
-- hash.
pub get_hash-serialize_hash :
    (msg t : Text) (m : Map Text) (p : ℕ)
    → length msg < 2 ^ 64
    → p + 5 ≤ length msg
    → drop p msg ≡ serialize_hash m ++ t
    → (r : Map Text) × (get_hash msg (p + 5) ≡ parsed r (p + length (serialize_hash m)))
      × ((k : Text) → find k r ≡ find k m)
unfolding serialize_hash find
get_hash-serialize_hash msg t m p small hp h =
    let b = serialize_pairs m in
    let body = bracketed 123 (length m) 125 b in
    let e = drop_past (codes ":HASH") msg p (body ++ t) h in
    let n = count_small 123 (length m) 125 b msg t (p + 5) (length-serialize_pairs m) small hp e in
    let k : p + 5 + length body ≡ p + length (serialize_hash m) = omega arith in
    (
      emplace_all [] m,
      get_hash_at msg small (p + 5) t hp m n e ∙ ap (λ q. parsed (emplace_all [] m) q) k,
      λ x. find-emplace_all x [] m,
    )

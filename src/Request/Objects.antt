-- ===== src/Request/Objects.antt =====
-- vanity/request/extractable.cpp: the objects that a request is made of, and object_t.h there.
use vanity.Base.{
  ℕ, zero, suc, ℤ, Bool, true, false, List, [], ◌∷◌, ltb, if◌then◌else◌, length, take, drop,
}
use vanity.Std.Text.{Text, codes}
use vanity.Std.Map.{Map, assign, contains}
use vanity.Std.Set.{Set, insert}
use vanity.Std.Convert.{strtoull, strtoll}
use vanity.Request.Extractable.{
  parsed, invalid, failed, Extract, resume, ◌>>=◌, give, throw, Platform, current, advance, compare,
  has_up_to, expect, skip_whitespace, ensure_not_end, take_number,
}

-- client_auth
pub data ClientAuth : Type 0 where
  unknown user admin peer : ClientAuth

-- CLIENT_AUTH_STRINGS
abbrev pub client_auth_strings : List (ClientAuth × Text)
client_auth_strings =
    (ClientAuth.unknown, codes "UNKNOWN")
    ∷ (ClientAuth.user, codes "USER")
    ∷ (ClientAuth.admin, codes "ADMIN")
    ∷ (ClientAuth.peer, codes "PEER")
    ∷ []

-- emplace(k, v): a key that is there keeps its value
unfoldable pub emplace : Text → Text → Map Text → Map Text
emplace k v m = if contains k m then m else assign k v m

module _ (msg : Text) where
  -- the loop of peek_from_list: the first string that the message goes on with
  unfoldable pub first_of : {A : Type 0} → List (A × Text) → Text → Extract (A × Text)
  first_of [] err = throw err
  first_of ((a, s) ∷ rest) err = do
    found ← compare msg s
    if found then give (a, s) else first_of rest err

  unfoldable pub peek_from_list : {A : Type 0} → List (A × Text) → Text → Extract A
  peek_from_list l err = do _ ← skip_whitespace msg; m ← first_of l err; give m.0

  unfoldable pub get_from_list : {A : Type 0} → List (A × Text) → Text → Extract A
  get_from_list l err = do
    _ ← skip_whitespace msg
    m ← first_of l err
    _ ← advance (length m.1)
    give m.0

  unfoldable pub get_client_auth : Extract ClientAuth
  get_client_auth = get_from_list client_auth_strings (codes "invalid auth level")

  -- the bytes from &current() on, a zero after them
  unfoldable pub rest_of_message : Extract Text
  rest_of_message = do _ ← current msg; λ p. parsed (drop p msg) p

  unfoldable pub get_len : Extract ℕ
  get_len = do
    _ ← ensure_not_end msg
    _ ← expect msg 40 (codes "expected length specifier")
    t ← rest_of_message
    len ← take_number (strtoull t) (codes "length out of range") (codes "invalid length")
    _ ← expect msg 41 (codes "expected length specifier")
    give len

  unfoldable pub get_int : Extract ℤ
  get_int = do
    _ ← ensure_not_end msg
    t ← rest_of_message
    take_number (strtoll t) (codes "integer out of range") (codes "invalid integer")

  -- m_msg.substr(m_pos, len), up to the end of the message
  unfoldable pub substr : ℕ → Extract Text
  substr len p = if ltb (length msg) p then failed p else parsed (take len (drop p msg)) p

  -- the end of get_str, when the length is known
  unfoldable pub take_str : ℕ → Extract Text
  unfolding has_up_to substr advance
  take_str len p =
      if has_up_to msg len p
      then resume (substr len p) (λ s q. resume (advance len q) (λ u. give s))
      else invalid (codes "string too short") p

  unfoldable pub get_str : Extract Text
  get_str = do len ← get_len; take_str len

  -- the loops of the containers, with the container as it grows
  unfoldable pub get_strs : ℕ → Extract (List Text)
  get_strs zero = give []
  get_strs (suc n) = do s ← get_str; rest ← get_strs n; give (s ∷ rest)

  unfoldable pub emplace_strs : ℕ → Set → Extract Set
  emplace_strs zero acc = give acc
  emplace_strs (suc n) acc = do s ← get_str; emplace_strs n (insert s acc)

  unfoldable pub emplace_pairs : ℕ → Map Text → Extract (Map Text)
  emplace_pairs zero acc = give acc
  emplace_pairs (suc n) acc = do
    key ← get_str
    value ← get_str
    emplace_pairs n (emplace key value acc)

  unfoldable pub get_list : Extract (List Text)
  get_list = do
    len ← get_len
    _ ← expect msg 91 (codes "list not opened with bracket")
    l ← get_strs len
    _ ← expect msg 93 (codes "list not closed with bracket")
    give l

  unfoldable pub get_set : Extract Set
  get_set = do
    len ← get_len
    _ ← expect msg 123 (codes "set not opened with '{' bracket")
    s ← emplace_strs len []
    _ ← expect msg 125 (codes "set not closed with '}' bracket")
    give s

  unfoldable pub get_hash : Extract (Map Text)
  get_hash = do
    len ← get_len
    _ ← expect msg 123 (codes "hash not opened with '{' bracket")
    h ← emplace_pairs len []
    _ ← expect msg 125 (codes "hash not closed with '}' bracket")
    give h

  unfoldable pub get_bool : Extract Bool
  get_bool = do
    _ ← ensure_not_end msg
    is_true ← compare msg (codes "true")
    if is_true then (do _ ← advance 4; give true) else (do
      is_false ← compare msg (codes "false")
      if is_false then (do _ ← advance 5; give false) else throw (codes "invalid boolean"))

  module _ (platform : Platform) where
    unfoldable pub get_float : Extract ℕ
    get_float = do
      _ ← ensure_not_end msg
      t ← rest_of_message
      take_number (platform.strtod t) (codes "float out of range") (codes "invalid float")

    -- arr.reserve(len)
    unfoldable pub reserve : ℕ → Extract Unit
    reserve len p = if platform.can_reserve len then parsed tt p else failed p

    unfoldable pub get_arr : Extract (List Text)
    get_arr = do
      len ← get_len
      _ ← expect msg 91 (codes "array not opened with bracket")
      _ ← reserve len
      arr ← get_strs len
      _ ← expect msg 93 (codes "array not closed with bracket")
      give arr

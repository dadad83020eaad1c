-- ===== src/Request/Bounds.antt =====
-- The position of vanity/request/extractable.cpp stays inside the message.
use vanity.Base.{
  ℕ, zero, suc, ◌+◌, ◌≤◌, ◌≡◌, refl, ap, Bool, true, false, List, [], ◌∷◌, if◌then◌else◌, length,
  take, drop, get_or, arith, length-drop, length-take,
}
use vanity.Std.Text.{Text, codes, text_eq, eq_iff}
use vanity.Std.Map.{Map}
use vanity.Std.Set.{Set, insert}
use vanity.Std.Convert.{
  Conversion, no_conversion, range_error, converted, spaces, sign_size, count_of, convert, strtoull,
  strtoll,
}
use vanity.Request.Extractable.{
  Parsed, parsed, invalid, failed, undefined, Extract, resume, ◌>>=◌, give, Platform, current, end,
  advance, compare, expect, skip_whitespace, ensure_end, ensure_end_if, ensure_not_end, take_number,
}
use vanity.Request.Objects.{
  first_of, peek_from_list, get_from_list, rest_of_message, get_len, get_int, take_str, get_str,
  get_strs, emplace_strs, emplace, emplace_pairs, get_list, get_set, get_hash, get_bool, get_float,
  reserve, get_arr, get_client_auth, client_auth_strings,
}

-- However it ends, the position is not behind the end of the message, and nothing was read there.
abbrev pub Within : {A : Type 0} → Text → Parsed A → Type 0
Within msg (parsed a p) = p ≤ length msg
Within msg (invalid e p) = p ≤ length msg
Within msg (failed p) = p ≤ length msg
Within msg undefined = ⊥

abbrev pub IsSafe : {A : Type 0} → Text → Extract A → Type 0
IsSafe msg m = (p : ℕ) → p ≤ length msg → Within msg (m p)

pub length-spaces : (t : Text) → spaces t ≤ length t
unfolding spaces
length-spaces [] = ground arith
length-spaces (c ∷ t) = ground (arith, length-spaces t)

pub length-count_of : (t : Text) → count_of t ≤ length t
unfolding count_of
length-count_of [] = ground arith
length-count_of (c ∷ t) = ground (arith, length-count_of t)

length-sign_size : (t : Text) → sign_size t ≤ length t
unfolding sign_size
length-sign_size [] = ground arith
length-sign_size (c ∷ t) = ground arith

-- A conversion uses no more bytes than there are.
abbrev pub Uses : {A : Type 0} → ℕ → Conversion A → Type 0
Uses n (converted a k) = k ≤ n
Uses n _ = Unit

length-count :
    (t : Text)
    → let s = spaces t in
      let u = drop s t in let g = sign_size u in s + g + count_of (drop g u) ≤ length t
length-count t =
    let s = spaces t in
    let u = drop s t in
    let g = sign_size u in
    ground (
      arith,
      length-spaces t,
      length-sign_size u,
      length-count_of (drop g u),
      length-drop s t,
      length-drop g u,
    )

strtoull-Uses : (t : Text) → Uses (length t) (strtoull t)
unfolding strtoull convert
strtoull-Uses t = ground (arith, length-count t)

strtoll-Uses : (t : Text) → Uses (length t) (strtoll t)
unfolding strtoll convert
strtoll-Uses t = ground (arith, length-count t)

module _ {A B : Type 0} (msg : Text) where
  pub resume-Within :
      (r : Parsed A) (f : A → Extract B)
      → Within msg r
      → ((a : A) → IsSafe msg (f a))
      → Within msg (resume r f)
  resume-Within (parsed a p) f h k = k a p h
  resume-Within (invalid e p) f h k = h
  resume-Within (failed p) f h k = h
  resume-Within undefined f h k = h

  pub >>=-IsSafe :
      (m : Extract A) (f : A → Extract B)
      → IsSafe msg m
      → ((a : A) → IsSafe msg (f a))
      → IsSafe msg (m >>= f)
  >>=-IsSafe m f h k p q = resume-Within (m p) f (h p q) k

module _ (msg : Text) where
  pub skip_whitespace-IsSafe : IsSafe msg (skip_whitespace msg)
  unfolding skip_whitespace
  skip_whitespace-IsSafe p h = ground (arith, length-spaces (drop p msg), length-drop p msg)

  ensure_not_end-IsSafe : IsSafe msg (ensure_not_end msg)
  unfolding ensure_not_end skip_whitespace end
  ensure_not_end-IsSafe p h = ground (arith, length-spaces (drop p msg), length-drop p msg)

  pub ensure_end_if-IsSafe : (c : Bool) → IsSafe msg (ensure_end_if msg c)
  unfolding ensure_end_if ensure_end skip_whitespace end
  ensure_end_if-IsSafe c p h = ground (arith, length-spaces (drop p msg), length-drop p msg)

  get_or_past : (t : Text) (p : ℕ) → length t ≤ p → get_or t p 0 ≡ 0
  get_or_past [] p h = refl
  get_or_past (x ∷ t) zero h = ground arith
  get_or_past (x ∷ t) (suc p) h = get_or_past t p (omega arith)

  expect-IsSafe : (c : ℕ) (err : Text) → 1 ≤ c → IsSafe msg (expect msg c err)
  unfolding expect current advance
  expect-IsSafe c err hc p h = ground (arith, get_or_past msg p)

  compare-IsSafe : (s : Text) → IsSafe msg (compare msg s)
  unfolding compare
  compare-IsSafe s p h = ground arith

  -- A conditional is safe if its branches are.
  if-IsSafe :
      {A : Type 0} (c : Bool) (m n : Extract A)
      → IsSafe msg m
      → IsSafe msg n
      → IsSafe msg (if c then m else n)
  if-IsSafe true m n hm hn = hm
  if-IsSafe false m n hm hn = hn

  first_of-IsSafe :
      {A : Type 0} (l : List (A × Text)) (err : Text) → IsSafe msg (first_of msg l err)
  unfolding first_of
  first_of-IsSafe [] err p h = h
  first_of-IsSafe ((a, s) ∷ rest) err p h =
      >>=-IsSafe msg (compare msg s) _ (compare-IsSafe s)
        (λ found. if-IsSafe found _ _ (λ q hq. hq) (first_of-IsSafe rest err)) p h

  -- What is found is there, so the position behind it is in the message.
  first_of-found :
      {A : Type 0} (l : List (A × Text)) (err : Text) (p : ℕ) (m : A × Text) (q : ℕ)
      → first_of msg l err p ≡ parsed m q
      → (q ≡ p) × (text_eq (take (length m.1) (drop p msg)) m.1 ≡ true)
  unfolding first_of compare
  first_of-found [] err p m q h = ground arith
  first_of-found ((a, s) ∷ rest) err p m q h = ground (arith, first_of-found rest err p m q)

  pub peek_from_list-IsSafe :
      {A : Type 0} (l : List (A × Text)) (err : Text) → IsSafe msg (peek_from_list msg l err)
  unfolding peek_from_list
  peek_from_list-IsSafe l err =
      >>=-IsSafe msg (skip_whitespace msg) _ skip_whitespace-IsSafe
        (λ u. >>=-IsSafe msg (first_of msg l err) _ (first_of-IsSafe l err) (λ m p h. h))

  rest_of_message-IsSafe : IsSafe msg (rest_of_message msg)
  unfolding rest_of_message current
  rest_of_message-IsSafe p h = ground arith

  advance_found :
      {A : Type 0} (l : List (A × Text)) (err : Text) (p : ℕ) (r : Parsed (A × Text))
      → p ≤ length msg
      → first_of msg l err p ≡ r
      → Within msg (resume r (λ m. advance (length m.1) >>= λ u. give m.0))
  unfolding advance
  advance_found l err p (parsed (a, s) q) hp h =
      let (same, equal) = first_of-found l err p (a, s) q h in
      let there = (eq_iff (take (length s) (drop p msg)) s).0 equal in
      ground (arith, length-take (length s) (drop p msg), length-drop p msg, ap length there)
  advance_found l err p (invalid e q) hp h = ground (arith, first_of-IsSafe l err p hp)
  advance_found l err p (failed q) hp h = ground (arith, first_of-IsSafe l err p hp)
  advance_found l err p undefined hp h = ground (arith, first_of-IsSafe l err p hp)

  pub get_from_list-IsSafe :
      {A : Type 0} (l : List (A × Text)) (err : Text) → IsSafe msg (get_from_list msg l err)
  unfolding get_from_list
  get_from_list-IsSafe l err =
      >>=-IsSafe msg (skip_whitespace msg) _ skip_whitespace-IsSafe
        (λ u p h. advance_found l err p (first_of msg l err p) h refl)

  pub get_client_auth-IsSafe : IsSafe msg (get_client_auth msg)
  unfolding get_client_auth
  get_client_auth-IsSafe = get_from_list-IsSafe client_auth_strings _

  take_number-Within :
      {A : Type 0} (c : Conversion A) (e1 e2 : Text) (p : ℕ)
      → p ≤ length msg
      → Uses (length (drop p msg)) c
      → Within msg (take_number c e1 e2 p)
  unfolding take_number advance
  take_number-Within no_conversion e1 e2 p h u = h
  take_number-Within range_error e1 e2 p h u = h
  take_number-Within (converted a n) e1 e2 p h u = ground (arith, length-drop p msg)

  -- What goes on with the bytes from the position on.
  rest-IsSafe :
      {B : Type 0} (f : Text → Extract B)
      → ((p : ℕ) → p ≤ length msg → Within msg (f (drop p msg) p))
      → IsSafe msg (rest_of_message msg >>= f)
  unfolding rest_of_message current
  rest-IsSafe f k p h = ground (arith, k p h)

  number-Within :
      {A : Type 0} (f : Text → Conversion A) (e1 e2 : Text)
      → ((t : Text) → Uses (length t) (f t))
      → (p : ℕ) → p ≤ length msg
      → Within msg (take_number (f (drop p msg)) e1 e2 p)
  number-Within f e1 e2 uses p h = take_number-Within (f (drop p msg)) e1 e2 p h (uses (drop p msg))

  -- Ends of the extractions of containers and lengths.
  closed-IsSafe :
      {A : Type 0} (c : ℕ) (err : Text) (a : A)
      → 1 ≤ c
      → IsSafe msg (expect msg c err >>= λ u. give a)
  closed-IsSafe c err a h =
      >>=-IsSafe msg (expect msg c err) _ (expect-IsSafe c err h) (λ u p hp. hp)

  pub get_len-IsSafe : IsSafe msg (get_len msg)
  unfolding get_len
  get_len-IsSafe = >>=-IsSafe msg (ensure_not_end msg) _ ensure_not_end-IsSafe (λ u.
      >>=-IsSafe msg (expect msg 40 _) _ (expect-IsSafe 40 _ (omega arith)) (λ v.
        rest-IsSafe _ (λ p h.
          resume-Within msg (take_number (strtoull (drop p msg)) _ _ p) _
            (number-Within strtoull _ _ strtoull-Uses p h)
            (λ len. closed-IsSafe 41 _ len (omega arith)))))

  pub get_int-IsSafe : IsSafe msg (get_int msg)
  unfolding get_int
  get_int-IsSafe =
      >>=-IsSafe msg (ensure_not_end msg) _ ensure_not_end-IsSafe
        (λ u. rest-IsSafe _ (number-Within strtoll _ _ strtoll-Uses))

  pub get_str-IsSafe : IsSafe msg (get_str msg)
  unfolding get_str take_str
  get_str-IsSafe = >>=-IsSafe msg (get_len msg) _ get_len-IsSafe (λ len p h. ground arith)

  get_strs-IsSafe : (n : ℕ) → IsSafe msg (get_strs msg n)
  unfolding get_strs
  get_strs-IsSafe zero p h = h
  get_strs-IsSafe (suc n) p h =
      >>=-IsSafe msg (get_str msg) _ get_str-IsSafe
        (λ s. >>=-IsSafe msg (get_strs msg n) _ (get_strs-IsSafe n) (λ l q hq. hq)) p h

  emplace_strs-IsSafe : (n : ℕ) (acc : Set) → IsSafe msg (emplace_strs msg n acc)
  unfolding emplace_strs
  emplace_strs-IsSafe zero acc p h = h
  emplace_strs-IsSafe (suc n) acc p h =
      >>=-IsSafe msg (get_str msg) _ get_str-IsSafe (λ s. emplace_strs-IsSafe n (insert s acc)) p h

  emplace_pairs-IsSafe : (n : ℕ) (acc : Map Text) → IsSafe msg (emplace_pairs msg n acc)
  unfolding emplace_pairs
  emplace_pairs-IsSafe zero acc p h = h
  emplace_pairs-IsSafe (suc n) acc p h =
      >>=-IsSafe msg (get_str msg) _ get_str-IsSafe
        (λ k.
          >>=-IsSafe msg (get_str msg) _ get_str-IsSafe
            (λ v. emplace_pairs-IsSafe n (emplace k v acc)))
        p h

  -- A container: its length, a bracket, what comes between, and a bracket.
  container-IsSafe :
      {A : Type 0} (o c : ℕ) (eo ec : Text) (body : ℕ → Extract A)
      → 1 ≤ o
      → 1 ≤ c
      → ((n : ℕ) → IsSafe msg (body n))
      → IsSafe msg (
          get_len msg >>= λ len.
          expect msg o eo >>= λ u. body len >>= λ a. expect msg c ec >>= λ v. give a)
  container-IsSafe o c eo ec body ho hc k = >>=-IsSafe msg (get_len msg) _ get_len-IsSafe (λ len.
      >>=-IsSafe msg (expect msg o eo) _ (expect-IsSafe o eo ho)
        (λ u. >>=-IsSafe msg (body len) _ (k len) (λ a. closed-IsSafe c ec a hc)))

  pub get_list-IsSafe : IsSafe msg (get_list msg)
  unfolding get_list
  get_list-IsSafe =
      container-IsSafe 91 93 _ _ (get_strs msg) (omega arith) (omega arith) get_strs-IsSafe

  pub get_set-IsSafe : IsSafe msg (get_set msg)
  unfolding get_set
  get_set-IsSafe =
      container-IsSafe 123 125 _ _ (λ n. emplace_strs msg n []) (omega arith) (omega arith)
        (λ n. emplace_strs-IsSafe n [])

  pub get_hash-IsSafe : IsSafe msg (get_hash msg)
  unfolding get_hash
  get_hash-IsSafe =
      container-IsSafe 123 125 _ _ (λ n. emplace_pairs msg n []) (omega arith) (omega arith)
        (λ n. emplace_pairs-IsSafe n [])

  -- A literal that was compared with is skipped as a whole.
  literal-IsSafe :
      {A : Type 0} (lit : Text) (a : A) (other : Extract A)
      → IsSafe msg other
      → IsSafe msg (
          compare msg lit >>= λ found.
          if found then (advance (length lit) >>= λ u. give a) else other)
  unfolding compare advance
  literal-IsSafe lit a other k p h = ground (
    arith,
    k p h,
    eq_iff (take (length lit) (drop p msg)) lit,
    length-take (length lit) (drop p msg),
    length-drop p msg,
  )

  pub get_bool-IsSafe : IsSafe msg (get_bool msg)
  unfolding get_bool
  get_bool-IsSafe = >>=-IsSafe msg (ensure_not_end msg) _ ensure_not_end-IsSafe (λ u.
      literal-IsSafe (codes "true") true _ (literal-IsSafe (codes "false") false _ (λ p h. h)))

  -- Given a platform whose strtod uses no more bytes than there are.
  module _ (platform : Platform) (uses : (t : Text) → Uses (length t) (platform.strtod t)) where
    pub get_float-IsSafe : IsSafe msg (get_float msg platform)
    unfolding get_float
    get_float-IsSafe =
        >>=-IsSafe msg (ensure_not_end msg) _ ensure_not_end-IsSafe
          (λ u. rest-IsSafe _ (number-Within (λ t. platform.strtod t) _ _ uses))

    reserve-IsSafe : (n : ℕ) → IsSafe msg (reserve msg platform n)
    unfolding reserve
    reserve-IsSafe n p h = ground arith

    pub get_arr-IsSafe : IsSafe msg (get_arr msg platform)
    unfolding get_arr
    get_arr-IsSafe = >>=-IsSafe msg (get_len msg) _ get_len-IsSafe (λ len.
        >>=-IsSafe msg (expect msg 91 _) _ (expect-IsSafe 91 _ (omega arith)) (λ u.
          >>=-IsSafe msg (reserve msg platform len) _ (reserve-IsSafe len) (λ v.
            >>=-IsSafe msg (get_strs msg len) _ (get_strs-IsSafe len)
              (λ a. closed-IsSafe 93 _ a (omega arith)))))

pub ruleset safe_objects = (
  get_str-IsSafe, get_int-IsSafe, get_list-IsSafe, get_set-IsSafe, get_hash-IsSafe,
  get_client_auth-IsSafe, get_arr-IsSafe, get_float-IsSafe,
)

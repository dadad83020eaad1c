-- ===== src/Serializer.antt =====
-- vanity/utils/serializer.h, and persist and from in vanity/db/db/database.cpp: values as bytes, in the
-- byte order of a little-endian machine. A read takes the bytes that are left and gives a value and the
-- rest; `none` is a read past the end of the file, which leaves a value that is not initialized, or an
-- exception.
pub mod RoundTrip
pub mod Databases
use vanity.Base.{
  ℕ, zero, suc, ◌+◌, ◌-◌, ◌*◌, ◌/◌, ◌%◌, ◌^◌, ℤ, pos, negsuc, Option, none, some, List, [], ◌∷◌,
  ◌++◌, ltb, leb, ◌==◌, if◌then◌else◌, length, take, drop,
}
use vanity.Std.Text.{Text}
use vanity.Std.Map.{Map, assign, contains}
use vanity.Std.Set.{Set, insert}
use vanity.Operations.{Data, string_t, int_t, float_t, list_t, set_t, hash_t}
use vanity.Database.{Database, new_database}

abbrev pub Reader : Type 0 → Type 0
Reader A = Text → Option (A × Text)

module _ {A B : Type 0} where
  abbrev pub continue : Option (A × Text) → (A → Reader B) → Option (B × Text)
  continue none f = none
  continue (some (a, t)) f = f a t

  infixl 5 ◌>>=◌
  abbrev pub ◌>>=◌ : Reader A → (A → Reader B) → Reader B
  (m >>= f) t = continue (m t) f

abbrev pub yield : {A : Type 0} → A → Reader A
yield a t = some (a, t)

-- An unsigned number of k bytes, the lowest first.
unfoldable pub write_bytes : ℕ → ℕ → Text
write_bytes zero n = []
write_bytes (suc k) n = n % 256 ∷ write_bytes k (n / 256)

unfoldable pub read_bytes : ℕ → Reader ℕ
read_bytes zero t = some (0, t)
read_bytes (suc k) [] = none
read_bytes (suc k) (b ∷ t) = continue (read_bytes k t) (λ n. yield (b + 256 * n))

-- int64_t, as its two's complement
abbrev pub to_uint64 : ℤ → ℕ
to_uint64 (pos n) = n % 2 ^ 64
to_uint64 (negsuc n) = 2 ^ 64 - 1 - n % 2 ^ 64

abbrev pub to_int64 : ℕ → ℤ
to_int64 n = if ltb n (2 ^ 63) then pos n else negsuc (2 ^ 64 - 1 - n)

unfoldable pub write_int : ℤ → Text
write_int n = write_bytes 8 (to_uint64 n)

unfoldable pub read_int : Reader ℤ
read_int = do n ← read_bytes 8; yield (to_int64 n)

unfoldable pub write_size : ℕ → Text
write_size n = write_bytes 8 n

-- As a streamsize, a size from 2 ^ 63 on is negative: a loop that counts to it does nothing.
unfoldable pub read_count : Reader ℕ
read_count = do n ← read_bytes 8; yield (if ltb n (2 ^ 63) then n else 0)

unfoldable pub write_string : Text → Text
write_string s = write_size (length s) ++ s

-- resize throws for a negative size
unfoldable pub read_chars : ℕ → Reader Text
read_chars n t =
    if leb (2 ^ 63) n then none else if ltb (length t) n then none else some (take n t, drop n t)

unfoldable pub read_string : Reader Text
read_string = do n ← read_bytes 8; read_chars n

unfoldable pub write_strings : List Text → Text
write_strings [] = []
write_strings (s ∷ l) = write_string s ++ write_strings l

unfoldable pub read_strings : ℕ → Reader (List Text)
read_strings zero = yield []
read_strings (suc n) = do s ← read_string; l ← read_strings n; yield (s ∷ l)

unfoldable pub write_list : List Text → Text
write_list l = write_size (length l) ++ write_strings l

unfoldable pub read_list : Reader (List Text)
read_list = do n ← read_count; read_strings n

unfoldable pub write_set : Set → Text
write_set s = write_size (length s) ++ write_strings s

unfoldable pub insert_strings : ℕ → Set → Reader Set
insert_strings zero acc = yield acc
insert_strings (suc n) acc = do s ← read_string; insert_strings n (insert s acc)

unfoldable pub read_set : Reader Set
read_set = do n ← read_count; insert_strings n []

unfoldable pub write_pairs : {V : Type 0} → (V → Text) → Map V → Text
write_pairs write [] = []
write_pairs write ((k, v) ∷ m) = write_string k ++ write v ++ write_pairs write m

unfoldable pub write_map : {V : Type 0} → (V → Text) → Map V → Text
write_map write m = write_size (length m) ++ write_pairs write m

-- the loops that read pairs into a map, with hash[key] = value or insert(pair)
unfoldable pub read_pairs :
    {V : Type 0} → (Text → V → Map V → Map V) → Reader V → ℕ → Map V → Reader (Map V)
read_pairs add read zero acc = yield acc
read_pairs add read (suc n) acc = do k ← read_string; v ← read; read_pairs add read n (add k v acc)

unfoldable pub read_hash : Reader (Map Text)
read_hash = do n ← read_count; read_pairs assign read_string n []

-- the index of the alternative, an int8_t, and the value
unfoldable pub write_data : Data → Text
write_data (string_t s) = 0 ∷ write_string s
write_data (int_t n) = 1 ∷ write_int n
write_data (float_t x) = 2 ∷ write_bytes 8 x
write_data (list_t l) = 3 ∷ write_list l
write_data (set_t s) = 4 ∷ write_set s
write_data (hash_t h) = 5 ∷ write_map write_string h

abbrev pub read_alternative : {A : Type 0} → Reader A → (A → Data) → Reader Data
read_alternative read f = do a ← read; yield (f a)

-- The alternative of an index; another one throws.
unfoldable pub read_index : ℕ → Reader Data
read_index i =
    if i == 0
    then read_alternative read_string string_t
    else if i == 1
    then read_alternative read_int int_t
    else if i == 2
    then read_alternative (read_bytes 8) float_t
    else if i == 3
    then read_alternative read_list list_t
    else if i == 4
    then read_alternative read_set set_t
    else if i == 5
    then read_alternative read_hash hash_t
    else (λ t. none)

unfoldable pub read_data : Reader Data
read_data [] = none
read_data (i ∷ t) = read_index i t

-- Database::persist: the index, a uint, and the two maps
unfoldable pub persist : Database → Text
persist db =
    write_bytes 4 db.m_index
    ++ write_map write_data db.m_data
    ++ write_map write_int db.m_expiry_times

-- insert(pair): a key that is there keeps its value
unfoldable pub insert_pair : {V : Type 0} → Text → V → Map V → Map V
insert_pair k v m = if contains k m then m else assign k v m

-- Database::from, with its result built in place, as compilers do here: a move would lose the index, and
-- an assignment of the result to a database keeps the index of that database.
unfoldable pub from : Reader Database
from = do
  index ← read_bytes 4
  size ← read_bytes 8
  values ← read_pairs insert_pair read_data size []
  times ← read_bytes 8
  expiry ← read_pairs insert_pair read_int times []
  yield (record (new_database index) { m_data = values; m_expiry_times = expiry })

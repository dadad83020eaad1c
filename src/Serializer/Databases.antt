-- ===== src/Serializer/Databases.antt =====
-- vanity/db/db/database.cpp: a database that is persisted is loaded with the same values.
use vanity.Base.{
  ◌^◌, ◌<◌, ◌≡◌, refl, sym, ap, ◌∙◌, Bool, true, false, Option, none, some, [], ◌∷◌, ◌++◌,
  if◌then◌else◌, length, arith,
}
use mathlib.Core.List.{append_assoc}
use mathlib.Core.Path.{subst}
use vanity.Std.Text.{Text, text_eq, eq_iff}
use vanity.Std.Map.{Map, find, assign, contains, is_some, find-assign}
use vanity.Std.Set.{merge, member, member-merge}
use vanity.Std.ConvertLaws.{IsInt64}
use vanity.Operations.{Data, string_t, int_t, float_t, list_t, set_t, hash_t}
use vanity.Database.{Database, new_database}
use vanity.Serializer.{
  Reader, write_bytes, read_bytes, write_int, read_int, write_size, read_count, write_string,
  read_string, write_list, read_list, write_set, read_set, write_pairs, write_map, read_pairs,
  read_hash, write_data, read_data, read_alternative, read_index, insert_pair, persist, from,
}
use vanity.Serializer.RoundTrip.{
  Reads, read_bytes-write_bytes, read_int-write_int, then-Reads, count-Reads, string-Reads,
  list-Reads, set-Reads, IsSmall, AreSmall, PairsSmall, add_all, pairs-Reads,
}

abbrev same : {A : Type 0} → A → A
same a = a

hash-Reads :
    (h : Map Text)
    → length h < 2 ^ 63
    → PairsSmall IsSmall h
    → Reads read_hash (write_map write_string h) (add_all assign same [] h)
unfolding read_hash write_map
hash-Reads h n k =
    then-Reads read_count (λ c. read_pairs assign read_string c []) (write_size (length h))
      (write_pairs write_string h) (length h) (add_all assign same [] h) (count-Reads (length h) n)
      (pairs-Reads assign write_string read_string same IsSmall string-Reads h [] k)

-- No key is there twice, which the standard guarantees of every unordered_map.
abbrev pub DistinctKeys : {V : Type 0} → Map V → Type 0
DistinctKeys [] = Unit
DistinctKeys ((k, v) ∷ m) = (find k m ≡ none) × DistinctKeys m

-- A value that can be in memory.
abbrev pub CanBeStored : Data → Type 0
CanBeStored (string_t s) = IsSmall s
CanBeStored (int_t n) = IsInt64 n
CanBeStored (float_t x) = x < 2 ^ 64
CanBeStored (list_t l) = (length l < 2 ^ 63) × AreSmall l
CanBeStored (set_t s) = (length s < 2 ^ 63) × AreSmall s
CanBeStored (hash_t h) = (length h < 2 ^ 63) × PairsSmall IsSmall h × DistinctKeys h

-- The value that is read back, which may be in another order.
abbrev loaded : Data → Data
loaded (set_t s) = set_t (merge [] s)
loaded (hash_t h) = hash_t (add_all assign same [] h)
loaded d = d

alternative-Reads :
    {A : Type 0} (read : Reader A) (f : A → Data) (bytes : Text) (a : A)
    → Reads read bytes a
    → Reads (read_alternative read f) bytes (f a)
alternative-Reads read f bytes a h t = rw (h t) refl

data-Reads : (d : Data) → CanBeStored d → Reads read_data (write_data d) (loaded d)
unfolding read_data write_data read_index
data-Reads (string_t s) h =
    alternative-Reads read_string string_t (write_string s) s (string-Reads s h)
data-Reads (int_t n) h = alternative-Reads read_int int_t (write_int n) n (read_int-write_int n h)
data-Reads (float_t x) h =
    alternative-Reads (read_bytes 8) float_t (write_bytes 8 x) x (read_bytes-write_bytes 8 x h)
data-Reads (list_t l) h = alternative-Reads read_list list_t (write_list l) l (list-Reads l h.0 h.1)
data-Reads (set_t s) h =
    alternative-Reads read_set set_t (write_set s) (merge [] s) (set-Reads s h.0 h.1)
data-Reads (hash_t m) h =
    alternative-Reads read_hash hash_t (write_map write_string m) (add_all assign same [] m)
      (hash-Reads m h.0 h.1)

abbrev map_option : {A B : Type 0} → (A → B) → Option A → Option B
map_option f none = none
map_option f (some a) = some (f a)

-- What is found after the pairs of a map are inserted.
find-insert_all :
    {V : Type 0} (f : V → V) (k : Text) (acc m : Map V)
    → find k (add_all insert_pair f acc m)
      ≡ (if contains k acc then find k acc else map_option f (find k m))
unfolding insert_pair find
find-insert_all f k acc [] = ground arith
find-insert_all f k acc ((j, v) ∷ m) =
    ground (
      arith,
      find-insert_all f k (insert_pair j (f v) acc) m,
      find-assign j k (f v) acc,
      eq_iff j k,
    )

-- What is found after the pairs of a map are assigned.
find-assign_all :
    (k : Text) (acc m : Map Text)
    → DistinctKeys m
    → find k (add_all assign same acc m) ≡ (if contains k m then find k m else find k acc)
unfolding find
find-assign_all k acc [] h = refl
find-assign_all k acc ((j, v) ∷ m) h =
    ground (arith, find-assign_all k (assign j v acc) m h.1, find-assign j k v acc, eq_iff j k)

-- Two values that no operation tells apart but by an order of iteration.
abbrev pub SameData : Data → Data → Type 0
SameData (set_t s) (set_t r) = (x : Text) → member x s ≡ member x r
SameData (hash_t h) (hash_t g) = (k : Text) → find k h ≡ find k g
SameData d e = d ≡ e

absent_lem : (o : Option Text) → (if is_some o then o else none) ≡ o
absent_lem none = refl
absent_lem (some a) = refl

loaded-SameData : (d : Data) → CanBeStored d → SameData (loaded d) d
unfolding member find
loaded-SameData (string_t s) h = refl
loaded-SameData (int_t n) h = refl
loaded-SameData (float_t x) h = refl
loaded-SameData (list_t l) h = refl
loaded-SameData (set_t s) h = λ x. member-merge x s []
loaded-SameData (hash_t m) h = λ k. find-assign_all k [] m h.2 ∙ absent_lem (find k m)

abbrev pub SameValue : Option Data → Option Data → Type 0
SameValue none none = Unit
SameValue (some d) (some e) = SameData d e
SameValue _ _ = ⊥

if-SameValue :
    (b : Bool) (c : Data) (o : Option Data)
    → SameData (loaded c) c
    → SameValue (map_option loaded o) o
    → SameValue (map_option loaded (if b then some c else o)) (if b then some c else o)
if-SameValue true c o h k = h
if-SameValue false c o h k = k

find-SameValue :
    (k : Text) (m : Map Data)
    → PairsSmall CanBeStored m
    → SameValue (map_option loaded (find k m)) (find k m)
unfolding find
find-SameValue k [] h = tt
find-SameValue k ((j, c) ∷ m) h =
    if-SameValue (text_eq j k) c (find k m) (loaded-SameData c h.1) (find-SameValue k m h.2)

-- A database whose sizes are those of a memory, and whose index is a uint.
abbrev pub CanBePersisted : Database → Type 0
CanBePersisted db =
    (db.m_index < 2 ^ 32)
    × (length db.m_data < 2 ^ 64)
    × PairsSmall CanBeStored db.m_data
    × (length db.m_expiry_times < 2 ^ 64)
    × PairsSmall IsInt64 db.m_expiry_times

-- The database that is loaded.
abbrev reloaded : Database → Database
reloaded db = record (new_database db.m_index) {
  m_data = add_all insert_pair loaded [] db.m_data;
  m_expiry_times = add_all insert_pair same [] db.m_expiry_times;
}

-- The parts of a persisted database, one after another.
persist_parts :
    (i ds d ts m t : Text) → i ++ (ds ++ d) ++ (ts ++ m) ++ t ≡ i ++ (ds ++ (d ++ (ts ++ (m ++ t))))
persist_parts i ds d ts m t =
    append_assoc (i ++ (ds ++ d)) (ts ++ m) t
    ∙ append_assoc i (ds ++ d) (ts ++ m ++ t)
    ∙ ap (λ (x : Text). i ++ x) (append_assoc ds d (ts ++ m ++ t))
    ∙ ap (λ (x : Text). i ++ (ds ++ (d ++ x))) (append_assoc ts m t)

from-Reads : (db : Database) → CanBePersisted db → Reads from (persist db) (reloaded db)
unfolding from persist write_map write_size
from-Reads db h t =
    let i = write_bytes 4 db.m_index in
    let ds = write_bytes 8 (length db.m_data) in
    let d = write_pairs write_data db.m_data in
    let ts = write_bytes 8 (length db.m_expiry_times) in
    let m = write_pairs write_int db.m_expiry_times in
    rw
      (
        persist_parts i ds d ts m t,
        read_bytes-write_bytes 4 db.m_index h.0 (ds ++ (d ++ (ts ++ (m ++ t)))),
        read_bytes-write_bytes 8 (length db.m_data) h.1 (d ++ (ts ++ (m ++ t))),
        pairs-Reads insert_pair write_data read_data loaded CanBeStored data-Reads db.m_data [] h.2
            (ts ++ (m ++ t)),
        read_bytes-write_bytes 8 (length db.m_expiry_times) h.3 (m ++ t),
        pairs-Reads insert_pair write_int read_int same IsInt64 read_int-write_int db.m_expiry_times
            [] h.4 t,
      )
      refl

same_option : {A : Type 0} (o : Option A) → map_option same o ≡ o
same_option none = refl
same_option (some a) = refl

-- A database that is persisted is loaded again, whatever comes behind it in the file: its index is the
-- same, every key has the same value but for an order of iteration, or none as before, and the same
-- expiry time. The index is below 2 ^ 32, integers and times are in the range of int64_t, sizes are
-- those of a memory, and no hash has a key twice.
pub from-persist :
    (db : Database) (t : Text)
    → CanBePersisted db
    → (e : Database) × (from (persist db ++ t) ≡ some (e, t))
      × (e.m_index ≡ db.m_index)
      × ((k : Text) → SameValue (find k e.m_data) (find k db.m_data))
      × ((k : Text) → find k e.m_expiry_times ≡ find k db.m_expiry_times)
unfolding find
from-persist db t h = (
  reloaded db,
  from-Reads db h t,
  refl,
  λ k.
      subst (λ o. SameValue o (find k db.m_data)) (sym (find-insert_all loaded k [] db.m_data))
        (find-SameValue k db.m_data h.2),
  λ k. find-insert_all same k [] db.m_expiry_times ∙ same_option (find k db.m_expiry_times),
)

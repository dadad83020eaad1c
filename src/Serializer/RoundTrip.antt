-- ===== src/Serializer/RoundTrip.antt =====
-- What vanity/utils/serializer.h writes, it reads back.
use vanity.Base.{
  ℕ, zero, suc, ◌-◌, ◌/◌, ◌%◌, ◌^◌, ◌<◌, ◌≡◌, refl, ℤ, pos, negsuc, some, List, [], ◌∷◌, ◌++◌,
  length, arith, length-append, take-append, drop-append,
}
use mathlib.Core.List.{append_assoc}
use vanity.Std.Text.{Text}
use vanity.Std.Map.{Map}
use vanity.Std.Set.{Set, insert, merge}
use vanity.Std.ConvertLaws.{IsInt64}
use vanity.Serializer.{
  Reader, ◌>>=◌, write_bytes, read_bytes, write_int, read_int, write_size, read_count, write_string,
  read_chars, read_string, write_strings, read_strings, write_list, read_list, write_set,
  insert_strings, read_set, read_pairs, write_pairs,
}

-- A reader reads back what was written of a value, whatever comes behind.
abbrev pub Reads : {A : Type 0} → Reader A → Text → A → Type 0
Reads read bytes a = (t : Text) → read (bytes ++ t) ≡ some (a, t)

pub read_bytes-write_bytes : (k n : ℕ) → n < 256 ^ k → Reads (read_bytes k) (write_bytes k n) n
unfolding read_bytes write_bytes
read_bytes-write_bytes zero n h t = ground arith
read_bytes-write_bytes (suc k) n h t =
    ground (arith, read_bytes-write_bytes k (n / 256) (omega arith) t)

pub read_int-write_int : (n : ℤ) → IsInt64 n → Reads read_int (write_int n) n
unfolding read_int write_int
read_int-write_int (pos n) h t =
    rw (read_bytes-write_bytes 8 (n % 2 ^ 64) (omega arith) t) (ground arith)
read_int-write_int (negsuc n) h t =
    rw (read_bytes-write_bytes 8 (2 ^ 64 - 1 - n % 2 ^ 64) (omega arith) t) (ground arith)

-- One reader after another, on what was written in that order.
pub then-Reads :
    {A B : Type 0} (m : Reader A) (f : A → Reader B) (x y : Text) (a : A) (b : B)
    → Reads m x a
    → Reads (f a) y b
    → Reads (m >>= f) (x ++ y) b
then-Reads m f x y a b hm hf t = rw (append_assoc x y t, hm (y ++ t)) (hf t)

pub count-Reads : (n : ℕ) → n < 2 ^ 63 → Reads read_count (write_size n) n
unfolding read_count write_size
count-Reads n h t = rw (read_bytes-write_bytes 8 n (omega arith) t) (ground arith)

chars-Reads : (s : Text) → length s < 2 ^ 63 → Reads (read_chars (length s)) s s
unfolding read_chars
chars-Reads s h t = ground (arith, length-append s t, take-append s t, drop-append s t)

pub string-Reads : (s : Text) → length s < 2 ^ 63 → Reads read_string (write_string s) s
unfolding read_string write_string write_size
string-Reads s h =
    then-Reads (read_bytes 8) read_chars (write_bytes 8 (length s)) s (length s) s
      (read_bytes-write_bytes 8 (length s) (omega arith)) (chars-Reads s h)

-- What can be in memory: fewer than 2 ^ 63 bytes, and as many elements.
abbrev pub IsSmall : Text → Type 0
IsSmall s = length s < 2 ^ 63

abbrev pub AreSmall : List Text → Type 0
AreSmall [] = Unit
AreSmall (s ∷ l) = IsSmall s × AreSmall l

strings-Reads : (l : List Text) → AreSmall l → Reads (read_strings (length l)) (write_strings l) l
unfolding read_strings write_strings
strings-Reads [] h t = refl
strings-Reads (s ∷ l) h t =
    then-Reads read_string _ (write_string s) (write_strings l) s (s ∷ l) (string-Reads s h.0)
      (λ u. rw (strings-Reads l h.1 u) refl) t

pub list-Reads : (l : List Text) → length l < 2 ^ 63 → AreSmall l → Reads read_list (write_list l) l
unfolding read_list write_list
list-Reads l n h =
    then-Reads read_count read_strings (write_size (length l)) (write_strings l) (length l) l
      (count-Reads (length l) n) (strings-Reads l h)

inserts-Reads :
    (s acc : Set)
    → AreSmall s
    → Reads (insert_strings (length s) acc) (write_strings s) (merge acc s)
unfolding insert_strings write_strings merge
inserts-Reads [] acc h t = refl
inserts-Reads (x ∷ s) acc h t =
    then-Reads read_string _ (write_string x) (write_strings s) x (merge (insert x acc) s)
      (string-Reads x h.0) (inserts-Reads s (insert x acc) h.1) t

pub set-Reads :
    (s : Set) → length s < 2 ^ 63 → AreSmall s → Reads read_set (write_set s) (merge [] s)
unfolding read_set write_set
set-Reads s n h =
    then-Reads read_count (λ c. insert_strings c []) (write_size (length s)) (write_strings s)
      (length s) (merge [] s) (count-Reads (length s) n) (inserts-Reads s [] h)

abbrev pub PairsSmall : {V : Type 0} → (V → Type 0) → Map V → Type 0
PairsSmall P [] = Unit
PairsSmall P ((k, v) ∷ m) = IsSmall k × P v × PairsSmall P m

-- What adding the pairs of a map to another makes of it, with the values that f makes of its values.
abbrev pub add_all : {V : Type 0} → (Text → V → Map V → Map V) → (V → V) → Map V → Map V → Map V
add_all add f acc [] = acc
add_all add f acc ((k, v) ∷ m) = add_all add f (add k (f v) acc) m

-- The pairs of a map, whose values are read back as f says.
module _ {V : Type 0} (add : Text → V → Map V → Map V) (write : V → Text) (read : Reader V)
    (f : V → V) (P : V → Type 0) (back : (v : V) → P v → Reads read (write v) (f v)) where
  pub pairs-Reads :
      (m acc : Map V)
      → PairsSmall P m
      → Reads (read_pairs add read (length m) acc) (write_pairs write m) (add_all add f acc m)
  unfolding read_pairs write_pairs
  pairs-Reads [] acc h t = refl
  pairs-Reads ((k, v) ∷ m) acc h t =
      let rest = add_all add f (add k (f v) acc) m in
      rw (append_assoc (write_string k) (write v) (write_pairs write m)) (
        then-Reads read_string _ (write_string k) (write v ++ write_pairs write m) k rest
          (string-Reads k h.0)
          (then-Reads read _ (write v) (write_pairs write m) (f v) rest (back v h.1)
            (pairs-Reads m (add k (f v) acc) h.2))
          t)

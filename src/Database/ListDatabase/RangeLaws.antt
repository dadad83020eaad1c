-- ===== src/Database/ListDatabase/RangeLaws.antt =====
-- Which ranges list_range and list_trim are defined for, and that they agree.
use vanity.Base.{
  ℕ, suc, ◌+◌, ◌-◌, leb, ℤ, pos, negsuc, ◌≡◌, refl, false, Option, none, some, List, [], arith,
  length, drop, take, drop_all, ok, err, if◌then◌else◌,
}
use Prim.Native.Nat.{min}
use mathlib.Core.List.{append-nil}
use vanity.Std.Text.{Text}
use vanity.Std.Map.{find}
use vanity.Operations.{list_t}
use vanity.Database.{Database}
use vanity.Database.Expiry.{refresh}
use vanity.Database.ListDatabase.{
  Answer, start_iterator, end_iterator, iterator_pair_inclusive, is_invalid_range, store_list,
}
use vanity.Database.ListDatabase.Access.{iterator_or_end-pos, iterator_or_end-negsuc}
use vanity.Database.ListDatabase.Ranges.{
  slice, trimmed, range_list, trim_list, range_found, trim_found, list_range, list_trim, answer,
}

-- The place of an index from the front: where a range starts that starts there.
abbrev pub start_place : List Text → ℤ → ℕ
start_place l (pos i) = min i (length l)
start_place l (negsuc i) = length l - suc i

-- The place behind an index: where a range ends that ends there, inclusively.
abbrev pub end_place : List Text → ℤ → ℕ
end_place l (pos j) = min (j + 1) (length l)
end_place l (negsuc j) = length l - j

start_iterator-place : (l : List Text) (start : ℤ) → start_iterator l start ≡ start_place l start
start_iterator-place l (pos i) = ground (arith, iterator_or_end-pos l i)
start_iterator-place l (negsuc i) = ground (arith, iterator_or_end-negsuc l i)

end_iterator-place : (l : List Text) (end : ℤ) → end_iterator l end ≡ end_place l end
end_iterator-place l (pos j) = ground (arith, iterator_or_end-pos l j)
end_iterator-place l (negsuc j) = ground (arith, iterator_or_end-negsuc l j)

iterator_pair-places :
    (l : List Text) (start end : ℤ)
    → iterator_pair_inclusive l start end ≡ (start_place l start, end_place l end)
unfolding iterator_pair_inclusive
iterator_pair-places l start end =
    let p = start_iterator-place l start in let q = end_iterator-place l end in λ k. (p k, q k)

-- What a range of a list is: the elements between its two places, or undefined if it ends before it
-- starts, unless that was noticed.
abbrev pub range_of : List Text → ℤ → ℤ → Option (List Text)
range_of l start end =
    if is_invalid_range start end
    then some []
    else if leb (start_place l start) (end_place l end)
    then some (slice (start_place l start) (end_place l end) l)
    else none

range_list_lem : (l : List Text) (start end : ℤ) → range_list l start end ≡ range_of l start end
unfolding range_list
range_list_lem l start end = rw (iterator_pair-places l start end) (ground arith)

module _ (now : ℤ) (key : Text) (start end : ℤ) (l : List Text) (db : Database) where
  -- LIST_RANGE of a list answers with the elements from the place of the start index to behind that
  -- of the end index, whatever their signs. It answers with no elements where both indices are
  -- positive, or both negative, and the end lies before the start. For any other range that ends
  -- before it starts the call is undefined.
  pub list_range_lem :
      find key (refresh now key db).m_data ≡ some (list_t l)
      → list_range now key start end db
        ≡ answer (λ r. (ok r, refresh now key db)) (range_of l start end)
  unfolding list_range
  list_range_lem h =
      rw (h, range_found) (rw (range_list_lem l start end) (both (range_of l start end)))
    where
      both :
          (o : Option (List Text))
          → answer {B = Answer (List Text) × Database} (λ r. (r, refresh now key db)) (answer ok o)
            ≡ answer (λ r. (ok r, refresh now key db)) o
      both none = refl
      both (some r) = refl

-- The second erasure keeps what lies before `end_it`.
trimmed-slice : (it end_it : ℕ) (l : List Text) → trimmed it end_it l ≡ slice it end_it l
unfolding trimmed
trimmed-slice it end_it l =
    rw (drop_all (length (drop it l)) (drop it l) (omega arith))
      (append-nil (take (end_it - it) (drop it l)))

-- What LIST_TRIM does with the answer of LIST_RANGE to the same range of a list.
abbrev pub trimmed_to :
    Text → List Text → Option (Answer (List Text) × Database) → Option (Answer ℕ × Database)
trimmed_to key l none = none
trimmed_to key l (some (ok kept, db)) = some (ok (length l - length kept), store_list key kept db)
trimmed_to key l (some (err e, db)) = some (err e, db)

module _ (now : ℤ) (key : Text) (start end : ℤ) (l : List Text) (db : Database) where
  trim_list-range_list :
      (d : Database)
      → is_invalid_range start end ≡ false
      → trim_list l key start end d
        ≡ trimmed_to key l (
            answer {B = Answer (List Text) × Database}
              (λ r. (r, d))
              (answer ok (range_list l start end)))
  unfolding trim_list range_list
  trim_list-range_list d v =
      let (it, end_it) = iterator_pair_inclusive l start end in
      ground (arith, v, trimmed-slice it end_it l)

  -- LIST_TRIM of a list, by a range that is not refused, and LIST_RANGE of the same range are undefined
  -- together. Else LIST_TRIM leaves what LIST_RANGE answers with, and answers with the number of the
  -- other elements.
  pub list_trim-list_range :
      find key (refresh now key db).m_data ≡ some (list_t l)
      → is_invalid_range start end ≡ false
      → list_trim now key start end db ≡ trimmed_to key l (list_range now key start end db)
  unfolding list_trim list_range trim_found range_found
  list_trim-list_range h v = rw h (trim_list-range_list (refresh now key db) v)

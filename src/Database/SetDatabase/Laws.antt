-- ===== src/Database/SetDatabase/Laws.antt =====
-- What the operations on one set do to its elements: vanity/db/db/set_database.cpp.
use vanity.Base.{
  ℕ, zero, suc, ◌+◌, ◌-◌, ℤ, ◌≡◌, refl, ap, ◌∙◌, Bool, true, false, ◌&&◌, ◌||◌, Option, none, some,
  List, [], ◌∷◌, length, get_elem?, if◌then◌else◌, arith,
}
use vanity.Std.Text.{Text, eq_iff, eq_refl}
use vanity.Std.Map.{find, find-assign_self}
use vanity.Std.Set
use vanity.Std.Set.{
  Set, member, insert, merge, erase_all, IsSetValue, member-insert, member-erase, member-merge,
  member-erase_all, erase-IsSetValue,
}
use vanity.Operations.{Data, string_t, int_t, float_t, list_t, set_t, hash_t}
use vanity.Database.{Database, put}
use vanity.Database.Expiry.{refresh, is_expired}
use vanity.Database.Expiry.Laws.{refresh_idem, refresh-put, refresh_fresh, is_expired-refresh}
use vanity.Database.SetDatabase.{
  set_or_empty, on_set, set_all, set_add, add_found, set_discard, discard_found, discard_left,
  store_set,
}

-- Whether every element of a set is in a list.
unfoldable pub all_in : Set → List Text → Bool
all_in [] values = true
all_in (x ∷ s) values = member x values && all_in s values

abbrev pub is_empty : Set → Bool
is_empty [] = true
is_empty (x ∷ s) = false

all_in-erase : (v : Text) (vs : List Text) (s : Set) → all_in (Set.erase v s) vs ≡ all_in s (v ∷ vs)
unfolding all_in member Set.erase
all_in-erase v vs [] = refl
all_in-erase v vs (y ∷ s) = ground (arith, all_in-erase v vs s, eq_iff y v, eq_iff v y)

all_in-nil : (s : Set) → is_empty s ≡ all_in s []
unfolding all_in member
all_in-nil [] = refl
all_in-nil (x ∷ s) = refl

empty-erase_all : (vs : List Text) (s : Set) → is_empty (erase_all vs s) ≡ all_in s vs
unfolding erase_all
empty-erase_all [] s = all_in-nil s
empty-erase_all (v ∷ vs) s = empty-erase_all vs (Set.erase v s) ∙ all_in-erase v vs s

-- The sets after an addition, whatever the value was.
member-add_found :
    (o : Option Data) (key x y : Text) (values : Set) (db : Database)
    → find key db.m_data ≡ o
    → on_set (member x) (set_or_empty (find key (add_found o key (y ∷ values) db).1.m_data))
      ≡ on_set (λ s. member x s || member x (y ∷ values)) (set_or_empty o)
unfolding add_found
member-add_found none key x y values db h =
    rw (find-assign_self key (set_t (merge [] (y ∷ values))) (put key (set_t []) db).m_data)
      (ap some (member-merge x (y ∷ values) []))
member-add_found (some (set_t s)) key x y values db h =
    rw (find-assign_self key (set_t (merge s (y ∷ values))) db.m_data)
      (ap some (member-merge x (y ∷ values) s))
member-add_found (some (string_t _)) key x y values db h = rw h refl
member-add_found (some (int_t _)) key x y values db h = rw h refl
member-add_found (some (float_t _)) key x y values db h = rw h refl
member-add_found (some (list_t _)) key x y values db h = rw h refl
member-add_found (some (hash_t _)) key x y values db h = rw h refl

member_none :
    (x : Text) (o : Option Set) → on_set (member x) o ≡ on_set (λ s. member x s || member x []) o
unfolding member
member_none x none = refl
member_none x (some s) = ground arith

module _ (now : ℤ) (key : Text) (db : Database) where
  fresh-add_found :
      (o : Option Data) (values : Set)
      → refresh now key (add_found o key values (refresh now key db)).1
        ≡ (add_found o key values (refresh now key db)).1
  unfolding add_found is_expired
  fresh-add_found none values =
      refresh_fresh now key
        (put key (set_t (merge [] values)) (put key (set_t []) (refresh now key db)))
        (is_expired-refresh now key db)
  fresh-add_found (some (set_t s)) values = refresh-put now key (set_t (merge s values)) db
  fresh-add_found (some (string_t _)) values = refresh_idem now key db
  fresh-add_found (some (int_t _)) values = refresh_idem now key db
  fresh-add_found (some (float_t _)) values = refresh_idem now key db
  fresh-add_found (some (list_t _)) values = refresh_idem now key db
  fresh-add_found (some (hash_t _)) values = refresh_idem now key db

  -- After SET_ADD the set at the key holds the elements that it held before and the added ones, where a
  -- missing key counts as an empty set. A key with a value that is not a set still has none.
  pub set_all-set_add :
      (values : Set) (x : Text)
      → on_set (member x) (set_all now key (set_add now key values db).1).0
        ≡ on_set (λ s. member x s || member x values) (set_all now key db).0
  unfolding set_all set_add
  set_all-set_add [] x =
      rw (refresh_idem now key db)
        (member_none x (set_or_empty (find key (refresh now key db).m_data)))
  set_all-set_add (y ∷ values) x =
      rw (fresh-add_found (find key (refresh now key db).m_data) (y ∷ values)) (
        member-add_found (find key (refresh now key db).m_data) key x y values (refresh now key db)
          refl)

  -- SET_DISCARD of a set takes the given elements out and answers with the change of its size. The
  -- call is undefined where they are all of its elements.
  pub set_discard_lem :
      (s : Set) (values : List Text)
      → find key (refresh now key db).m_data ≡ some (set_t s)
      → set_discard now key values db ≡ (
          if all_in s values
          then none
          else some (
            some (length s - length (erase_all values s)),
            put key (set_t (erase_all values s)) (refresh now key db),
          ))
  unfolding set_discard discard_found discard_left store_set
  set_discard_lem s values h = rw h (ground (arith, empty-erase_all values s))

-- An element that is drawn is there, so each round takes one out.
length-erase : (x : Text) (s : Set) → member x s ≡ false → Set.erase x s ≡ s
unfolding member Set.erase
length-erase x [] h = refl
length-erase x (y ∷ s) h = ground (arith, length-erase x s, eq_iff y x)

pub size-erase :
    (x : Text) (s : Set) → IsSetValue s → member x s ≡ true → length (Set.erase x s) + 1 ≡ length s
unfolding member Set.erase
size-erase x [] h m = ground arith
size-erase x (y ∷ s) h m =
    ground (arith, size-erase x s, length-erase x s, eq_iff y x, eq_iff x y, h.0, h.1)

pub member-get_elem? : (s : Set) (i : ℕ) (x : Text) → get_elem? s i ≡ some x → member x s ≡ true
unfolding member
member-get_elem? [] i x h = ground arith
member-get_elem? (y ∷ s) zero x h = ground (arith, eq_refl x)
member-get_elem? (y ∷ s) (suc i) x h = ground (arith, member-get_elem? s i x h)

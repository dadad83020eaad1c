-- ===== src/Database/SetDatabase.antt =====
-- vanity/db/db/set_database.cpp. The outer `none` of some results is a run that the C++ standard
-- leaves undefined; std::nullopt, for a value that is no set, is the inner one.
pub mod Algebra
pub mod Valid
pub mod Laws
pub mod Removal
pub mod AlgebraValid
pub mod AlgebraLaws
use vanity.Base.{
  ℕ, zero, suc, ◌-◌, ltb, ℤ, Bool, true, false, not, ◌&&◌, ◌||◌, Option, none, some, List, [], ◌∷◌,
  length, get_elem?, if◌then◌else◌,
}
use Prim.Native.Nat.{min}
use vanity.Std.Text.{Text}
use vanity.Std.Map.{Map, find}
use vanity.Std.Set
use vanity.Std.Set.{Set, member, insert, merge}
use vanity.Operations.{Data, set_t}
use vanity.Database.{Database, Env, put}
use vanity.Database.Expiry.{refresh, refresh_all, clear_expiry, expiry_aware_del}

-- A set that holds at least one element is kept, an empty one is deleted.
unfoldable pub store_set : Text → Set → Database → Database
unfolding expiry_aware_del
store_set key [] db = (expiry_aware_del key (put key (set_t []) db)).1
store_set key (x ∷ s) db = put key (set_t (x ∷ s)) db

unfoldable pub add_found : Option Data → Text → Set → Database → Option ℕ × Database
add_found none key values db =
    let set = merge [] values in (some (length set), put key (set_t set) (put key (set_t []) db))
add_found (some (set_t s)) key values db =
    let set = merge s values in (some (length set - length s), put key (set_t set) db)
add_found (some _) key values db = (none, db)

unfoldable pub set_add : ℤ → Text → Set → Database → Option ℕ × Database
unfolding add_found
set_add now key [] db = (some 0, refresh now key db)
set_add now key (x ∷ xs) db =
    let db' = refresh now key db in add_found (find key db'.m_data) key (x ∷ xs) db'

-- The set at a key, the empty one if there is none, std::nullopt for another type.
abbrev pub set_or_empty : Option Data → Option Set
set_or_empty none = some []
set_or_empty (some (set_t s)) = some s
set_or_empty (some _) = none

abbrev pub on_set {ℓ} : {B : Type ℓ} → (Set → B) → Option Set → Option B
on_set f none = none
on_set f (some s) = some (f s)

unfoldable pub set_all : ℤ → Text → Database → Option Set × Database
set_all now key db = let db' = refresh now key db in (set_or_empty (find key db'.m_data), db')

unfoldable pub set_len : ℤ → Text → Database → Option ℕ × Database
set_len now key db =
    let db' = refresh now key db in (on_set length (set_or_empty (find key db'.m_data)), db')

unfoldable pub set_contains : ℤ → Text → Text → Database → Option Bool × Database
set_contains now key value db =
    let db' = refresh now key db in
    (on_set (member value) (set_or_empty (find key db'.m_data)), db')

-- One round of set_remove: the element at the drawn position goes over to `removed`.
unfoldable pub extract_at : Option Text → Set → Set → Set × Set
extract_at none s removed = (s, removed)
extract_at (some x) s removed = (Set.erase x s, insert x removed)

-- The rounds of set_remove; `i` counts the draws.
unfoldable pub remove_random : (ℕ → ℕ → ℕ) → ℕ → ℕ → Set → Set → Set × Set
unfolding extract_at
remove_random draw i zero s removed = (s, removed)
remove_random draw i (suc n) s removed =
    let next = extract_at (get_elem? s (draw i (length s))) s removed in
    remove_random draw (suc i) n next.0 next.1

unfoldable pub remove_found : Env → Option Data → Text → ℕ → Database → Option Set × Database
unfolding remove_random store_set
remove_found env none key count db = (some [], db)
remove_found env (some (set_t s)) key count db =
    let (left, removed) = remove_random env.draw 0 (min count (length s)) s [] in
    (some removed, store_set key left db)
remove_found env (some _) key count db = (none, db)

unfoldable pub set_remove : Env → Text → ℕ → Database → Option Set × Database
unfolding remove_found
set_remove env key count db =
    let db' = refresh env.now key db in remove_found env (find key db'.m_data) key count db'

-- `size - set.size()`, where an empty set has just been erased together with its key: the
-- reference `set` then dangles.
unfoldable pub discard_left : Set → ℕ → Text → Database → Option (Option ℕ × Database)
unfolding store_set
discard_left [] size key db = none
discard_left (x ∷ left) size key db =
    some (some (size - length (x ∷ left)), store_set key (x ∷ left) db)

unfoldable pub discard_found : Option Data → Text → Set → Database → Option (Option ℕ × Database)
unfolding discard_left
discard_found none key values db = some (some 0, db)
discard_found (some (set_t s)) key values db =
    discard_left (Set.erase_all values s) (length s) key db
discard_found (some _) key values db = some (none, db)

unfoldable pub set_discard : ℤ → Text → Set → Database → Option (Option ℕ × Database)
unfolding discard_found
set_discard now key values db =
    let db' = refresh now key db in discard_found (find key db'.m_data) key values db'

-- dest_set.insert(value), where a missing set was created before
abbrev pub move_into : Option Data → Text → Text → Text → Set → Database → Option Bool × Database
move_into none source dest value left db =
    (some true, store_set source left (put dest (set_t (insert value [])) db))
move_into (some (set_t s)) source dest value left db =
    (some true, store_set source left (put dest (set_t (insert value s)) db))
move_into (some _) source dest value left db = (none, db)

-- An element moved onto its own set is taken out and put back.
unfoldable pub move_found : Option Data → Text → Text → Text → Database → Option Bool × Database
unfolding store_set
move_found none source dest value db = (some false, db)
move_found (some (set_t s)) source dest value db =
    if not (member value s)
    then (some false, db)
    else if vanity.Std.Text.text_eq source dest
    then (some true, put source (set_t (insert value (Set.erase value s))) db)
    else move_into (find dest db.m_data) source dest value (Set.erase value s) db
move_found (some _) source dest value db = (none, db)

unfoldable pub set_move : ℤ → Text → Text → Text → Database → Option Bool × Database
unfolding move_found
set_move now source dest value db =
    let db' = refresh now dest (refresh now source db) in
    move_found (find source db'.m_data) source dest value db'

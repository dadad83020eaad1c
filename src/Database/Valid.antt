-- ===== src/Database/Valid.antt =====
-- Every operation of vanity/db/db keeps a database valid: the operations on keys of any type and
-- on strings, integers and doubles.
use vanity.Base.{ℕ, ℤ, ◌≡◌, refl, Option, none, some, List, [], ◌∷◌, ◌+ℤ◌, arith}
use vanity.Std.Text.{Text}
use vanity.Std.Map.{find, find-assign}
use vanity.Operations.{Data, int_t, float_t}
use vanity.Database.{Database, Env, IsStorable, IsValid, put}
use vanity.Database.Expiry.{refresh, clear_expiry}
use vanity.Database.Expiry.Laws.{
  put-IsValid, clear_expiry-IsValid, expiry_aware_del-IsValid, erase_if_expired-IsValid,
  refresh_all-IsValid,
}
use vanity.Database.General.{
  copy_to, copy_found, copy_found_db, move_time, move_found, move_to, del, reset,
}
use vanity.Database.Primitive.{
  incr_int, incr_int_found, incr_float, incr_float_found, get_each, many_get,
}

-- Storing a value and clearing its time, as most writes do.
pub put_clear-IsValid :
    (key : Text) (d : Data) {db : Database}
    → IsStorable d
    → IsValid db
    → IsValid (clear_expiry key (put key d db))
put_clear-IsValid key d s v = clear_expiry-IsValid key (put-IsValid key v d s)

abbrev pub StorableAt : Option Data → Type 0
StorableAt none = Unit
StorableAt (some d) = IsStorable d

-- What a valid database holds at a key can be stored at another.
pub find-StorableAt : {db : Database} → IsValid db → (key : Text) → StorableAt (find key db.m_data)
find-StorableAt {db} v key = at (find key db.m_data) refl
  where
    at : (o : Option Data) → find key db.m_data ≡ o → StorableAt o
    at none e = tt
    at (some d) e = v.stored key d e

copy_found-IsValid :
    (o : Option Data) (from to : Text) {db : Database}
    → StorableAt o
    → IsValid db
    → IsValid (copy_found o from to db).1
unfolding copy_found
copy_found-IsValid none from to s v = v
copy_found-IsValid (some d) from to s v = ground (arith, put_clear-IsValid to d s v)

pub copy_to-IsValid :
    (now : ℤ) (from to : Text) {db : Database} → IsValid db → IsValid (copy_to now from to db).1
unfolding copy_to
copy_to-IsValid now from to {db} v =
    let v' = erase_if_expired-IsValid now from v in
    copy_found-IsValid (find from (refresh now from db).m_data) from to (find-StorableAt v' from) v'

-- A time is moved only to a key that has just been given a value.
move_time-IsValid :
    (o : Option ℤ) (to : Text) (d : Data) {db : Database}
    → IsStorable d
    → IsValid db
    → IsValid (move_time o to (put to d db))
unfolding move_time
move_time-IsValid none to d s v = put-IsValid to v d s
move_time-IsValid (some t) to d {db} s v = record {
  timed = λ k h.
      ground (arith, find-assign to k t db.m_expiry_times, find-assign to k d db.m_data, v.timed k);
  stored = (put-IsValid to v d s).stored;
}

move_found-IsValid :
    (o : Option Data) (from to : Text) {db : Database}
    → StorableAt o
    → IsValid db
    → IsValid (move_found o from to db).1
unfolding move_found del
move_found-IsValid none from to s v = v
move_found-IsValid (some d) from to {db} s v = ground (
  arith,
  expiry_aware_del-IsValid from (move_time-IsValid (find from db.m_expiry_times) to d s v),
)

pub move_to-IsValid :
    (now : ℤ) (from to : Text) {db : Database} → IsValid db → IsValid (move_to now from to db).1
unfolding move_to
move_to-IsValid now from to {db} v =
    let v' = erase_if_expired-IsValid now from v in
    move_found-IsValid (find from (refresh now from db).m_data) from to (find-StorableAt v' from) v'

module _ (o : Option Data) (key : Text) {db to : Database} (s : StorableAt o) where
  pub copy_found_db-IsValid :
      IsValid db
      → IsValid to
      → IsValid (copy_found_db o key db to).1 × IsValid (copy_found_db o key db to).2
  unfolding copy_found_db
  copy_found_db-IsValid v w =
      elim o
          as (λ x.
            StorableAt x
            → IsValid (copy_found_db x key db to).1 × IsValid (copy_found_db x key db to).2) [
              | none ↦ λ _. (v, w)
              | some d ↦ λ t. (v, put_clear-IsValid key d t w)
            ]
        s

pub reset-IsValid : (db : Database) → IsValid (reset db)
unfolding reset find
reset-IsValid db = record { timed = λ k h. h; stored = λ k d h. ground arith }

-- What an operation that may have no result leaves behind, if it has one, is valid.
abbrev pub Keeps : {A : Type 0} → Option (A × Database) → Type 0
Keeps none = Unit
Keeps (some (a, db)) = IsValid db

incr_int_found-Keeps :
    (o : Option Data) (key : Text) (x : ℤ) {db : Database}
    → IsValid db
    → Keeps (incr_int_found o key x db)
unfolding incr_int_found
incr_int_found-Keeps none key x v = put-IsValid key v (int_t x) tt
incr_int_found-Keeps (some (int_t y)) key x v =
    ground (arith, put-IsValid key v (int_t (y +ℤ x)) tt)
incr_int_found-Keeps (some _) key x v = v

pub incr_int-Keeps :
    (now : ℤ) (key : Text) (x : ℤ) {db : Database} → IsValid db → Keeps (incr_int now key x db)
unfolding incr_int
incr_int-Keeps now key x {db} v =
    incr_int_found-Keeps (find key (refresh now key db).m_data) key x
      (erase_if_expired-IsValid now key v)

incr_float_found-IsValid :
    (env : Env) (o : Option Data) (key : Text) (x : ℕ) {db : Database}
    → IsValid db
    → IsValid (incr_float_found env o key x db).1
unfolding incr_float_found
incr_float_found-IsValid env none key x v = put-IsValid key v (float_t x) tt
incr_float_found-IsValid env (some (float_t y)) key x v =
    put-IsValid key v (float_t (env.float_add y x)) tt
incr_float_found-IsValid env (some _) key x v = v

pub incr_float-IsValid :
    (env : Env) (key : Text) (x : ℕ) {db : Database}
    → IsValid db
    → IsValid (incr_float env key x db).1
unfolding incr_float
incr_float-IsValid env key x {db} v =
    incr_float_found-IsValid env (find key (refresh env.now key db).m_data) key x
      (erase_if_expired-IsValid env.now key v)

get_each-IsValid :
    (now : ℤ) (ks : List Text) {db : Database} → IsValid db → IsValid (get_each now ks db).1
unfolding get_each
get_each-IsValid now [] v = v
get_each-IsValid now (k ∷ ks) v = get_each-IsValid now ks (erase_if_expired-IsValid now k v)

pub many_get-IsValid :
    (now : ℤ) (ks : List Text) {db : Database} → IsValid db → IsValid (many_get now ks db).1
unfolding many_get
many_get-IsValid now ks v = get_each-IsValid now ks (refresh_all-IsValid now ks v)

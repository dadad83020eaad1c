-- ===== src/Database/SetDatabase/Valid.antt =====
-- The set operations keep a database valid: no set that is stored holds an element twice.
use vanity.Base.{ℕ, zero, suc, ℤ, Option, none, some, [], ◌∷◌, length, get_elem?, arith}
use Prim.Native.Nat.{min}
use vanity.Std.Text.{Text}
use vanity.Std.Map.{find}
use vanity.Std.Set
use vanity.Std.Set.{
  Set, member, insert, merge, IsSetValue, insert-IsSetValue, erase-IsSetValue, merge-IsSetValue,
  erase_all-IsSetValue,
}
use vanity.Operations.{Data, set_t}
use vanity.Database.{Database, Env, IsValid}
use vanity.Database.Expiry.{refresh}
use vanity.Database.Expiry.Laws.{put-IsValid, erase_if_expired-IsValid}
use vanity.Database.Valid.{StorableAt, find-StorableAt, Keeps}
use vanity.Database.ListDatabase.Valid.{put-put-IsValid, put_del-IsValid}
use vanity.Database.SetDatabase.{
  store_set, add_found, set_add, remove_random, extract_at, remove_found, set_remove, discard_left,
  discard_found, set_discard, move_into, move_found, set_move,
}

module _ (key : Text) {db : Database} (v : IsValid db) where
  store_set-IsValid : (s : Set) → IsSetValue s → IsValid (store_set key s db)
  unfolding store_set
  store_set-IsValid [] h = put_del-IsValid key v (set_t [])
  store_set-IsValid (x ∷ s) h = put-IsValid key v (set_t (x ∷ s)) h

  add_found-IsValid :
      (o : Option Data) (values : Set) → StorableAt o → IsValid (add_found o key values db).1
  unfolding add_found
  add_found-IsValid none values h =
      put-put-IsValid key v (set_t []) (set_t (merge [] values)) (merge-IsSetValue values [] tt)
  add_found-IsValid (some (set_t s)) values h =
      put-IsValid key v (set_t (merge s values)) (merge-IsSetValue values s h)
  add_found-IsValid (some _) values h = v

extract_at-IsSetValue :
    (o : Option Text) (s removed : Set) → IsSetValue s → IsSetValue (extract_at o s removed).0
unfolding extract_at
extract_at-IsSetValue none s removed h = h
extract_at-IsSetValue (some x) s removed h = erase-IsSetValue x s h

remove_random-IsSetValue :
    (draw : ℕ → ℕ → ℕ) (i n : ℕ) (s removed : Set)
    → IsSetValue s
    → IsSetValue (remove_random draw i n s removed).0
unfolding remove_random
remove_random-IsSetValue draw i zero s removed h = h
remove_random-IsSetValue draw i (suc n) s removed h =
    let o = get_elem? s (draw i (length s)) in
    remove_random-IsSetValue draw (suc i) n (extract_at o s removed).0 (extract_at o s removed).1
      (extract_at-IsSetValue o s removed h)

module _ (key : Text) {db : Database} (v : IsValid db) where
  remove_found-IsValid :
      (env : Env) (o : Option Data) (count : ℕ)
      → StorableAt o
      → IsValid (remove_found env o key count db).1
  unfolding remove_found
  remove_found-IsValid env none count h = v
  remove_found-IsValid env (some (set_t s)) count h =
      store_set-IsValid key v (remove_random env.draw 0 (min count (length s)) s []).0
        (remove_random-IsSetValue env.draw 0 (min count (length s)) s [] h)
  remove_found-IsValid env (some _) count h = v

  kept-Keeps : (left : Set) (n : ℕ) → IsSetValue left → Keeps (discard_left left n key db)
  unfolding discard_left
  kept-Keeps [] n h = tt
  kept-Keeps (x ∷ left) n h = store_set-IsValid key v (x ∷ left) h

  discard_found-Keeps :
      (o : Option Data) (values : Set) → StorableAt o → Keeps (discard_found o key values db)
  unfolding discard_found
  discard_found-Keeps none values h = v
  discard_found-Keeps (some (set_t s)) values h =
      kept-Keeps (Set.erase_all values s) (length s) (erase_all-IsSetValue values s h)
  discard_found-Keeps (some _) values h = v

move_into-IsValid :
    (o : Option Data) (source dest x : Text) (left : Set) {db : Database}
    → StorableAt o
    → IsSetValue left
    → IsValid db
    → IsValid (move_into o source dest x left db).1
move_into-IsValid none source dest x left h l v =
    store_set-IsValid source (put-IsValid dest v (set_t (insert x [])) (insert-IsSetValue x [] tt))
      left l
move_into-IsValid (some (set_t s)) source dest x left h l v =
    store_set-IsValid source (put-IsValid dest v (set_t (insert x s)) (insert-IsSetValue x s h))
      left l
move_into-IsValid (some _) source dest x left h l v = v

move_found-IsValid :
    (o : Option Data) (source dest x : Text) {db : Database}
    → StorableAt o
    → IsValid db
    → IsValid (move_found o source dest x db).1
unfolding move_found
move_found-IsValid none source dest x h v = v
move_found-IsValid (some (set_t s)) source dest x {db} h v = ground (
  arith,
  put-IsValid source v (set_t (insert x (Set.erase x s)))
      (insert-IsSetValue x (Set.erase x s) (erase-IsSetValue x s h)),
  move_into-IsValid (find dest db.m_data) source dest x (Set.erase x s) (find-StorableAt v dest)
      (erase-IsSetValue x s h) v,
)
move_found-IsValid (some _) source dest x h v = v

module _ (now : ℤ) (key : Text) {db : Database} (v : IsValid db) where
  pub set_add-IsValid : (values : Set) → IsValid (set_add now key values db).1
  unfolding set_add
  set_add-IsValid [] = erase_if_expired-IsValid now key v
  set_add-IsValid (x ∷ xs) =
      let v' = erase_if_expired-IsValid now key v in
      add_found-IsValid key v' (find key (refresh now key db).m_data) (x ∷ xs)
        (find-StorableAt v' key)

  pub set_discard-Keeps : (values : Set) → Keeps (set_discard now key values db)
  unfolding set_discard
  set_discard-Keeps values =
      let v' = erase_if_expired-IsValid now key v in
      discard_found-Keeps key v' (find key (refresh now key db).m_data) values
        (find-StorableAt v' key)

  pub set_move-IsValid : (dest x : Text) → IsValid (set_move now key dest x db).1
  unfolding set_move
  set_move-IsValid dest x =
      let v' = erase_if_expired-IsValid now dest (erase_if_expired-IsValid now key v) in
      move_found-IsValid (find key (refresh now dest (refresh now key db)).m_data) key dest x
        (find-StorableAt v' key) v'

pub set_remove-IsValid :
    (env : Env) (key : Text) (count : ℕ) {db : Database}
    → IsValid db
    → IsValid (set_remove env key count db).1
unfolding set_remove
set_remove-IsValid env key count {db} v =
    let v' = erase_if_expired-IsValid env.now key v in
    remove_found-IsValid key v' env (find key (refresh env.now key db).m_data) count
      (find-StorableAt v' key)

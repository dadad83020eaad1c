-- ===== src/Database/HashDatabase/Valid.antt =====
-- The hash operations keep a database valid.
use vanity.Base.{ℕ, ℤ, Option, none, some, List, [], ◌∷◌, length, ok, err}
use vanity.Std.Text.{Text}
use vanity.Std.Map.{Map, find}
use vanity.Operations.{Data, string_t, hash_t}
use vanity.Database.{Database, IsValid, put}
use vanity.Database.Expiry.{refresh}
use vanity.Database.Expiry.Laws.{put-IsValid, erase_if_expired-IsValid}
use vanity.Database.Valid.{Keeps, put_clear-IsValid}
use vanity.Database.HashDatabase.{
  Answer, not_hash, on_hash, hash_set, erase_fields, remove_left, remove_fields, hash_remove,
  update_fields, store_hash, hash_update,
}

pub hash_set-IsValid :
    (key : Text) (h : Map Text) {db : Database} → IsValid db → IsValid (hash_set key h db)
unfolding hash_set
hash_set-IsValid key h v = put_clear-IsValid key (hash_t h) tt v

module _ (key : Text) {db : Database} (v : IsValid db) where
  remove_left-Keeps : (left : Map Text) (n : ℕ) → Keeps (remove_left left n key db)
  unfolding remove_left
  remove_left-Keeps [] n = tt
  remove_left-Keeps (f ∷ left) n = put-IsValid key v (hash_t (f ∷ left)) tt

  store_hash-Keeps : (h : Map Text) (o : Option (Map Text)) → Keeps (store_hash h key o db)
  store_hash-Keeps h none = tt
  store_hash-Keeps h (some h') = put-IsValid key v (hash_t h') tt

  -- The cases of a missing key, of a hash and of another type.
  on_hash-Keeps :
      (o : Option Data) (absent other : Option (Answer ℕ × Database))
      (f : Map Text → Option (Answer ℕ × Database))
      → Keeps absent
      → Keeps other
      → ((h : Map Text) → Keeps (f h))
      → Keeps (on_hash absent other f o)
  on_hash-Keeps none absent other f a b c = a
  on_hash-Keeps (some (hash_t h)) absent other f a b c = c h
  on_hash-Keeps (some _) absent other f a b c = b

module _ (now : ℤ) (key : Text) {db : Database} (v : IsValid db) where
  pub hash_remove-Keeps : (ks : List Text) → Keeps (hash_remove now key ks db)
  unfolding hash_remove
  hash_remove-Keeps ks =
      let db' = refresh now key db in
      let v' = erase_if_expired-IsValid now key v in
      on_hash-Keeps key v' (find key db'.m_data) (some (ok 0, db')) (some (err not_hash, db'))
        (λ h. remove_fields h key ks db') v' v'
        (λ h. remove_left-Keeps key v' (erase_fields ks h) (length h))

  pub hash_update-Keeps : (values : Map Text) → Keeps (hash_update now key values db)
  unfolding hash_update
  hash_update-Keeps values =
      let db' = refresh now key db in
      let v' = erase_if_expired-IsValid now key v in
      on_hash-Keeps key v' (find key db'.m_data) (some (err not_hash, put key (string_t []) db'))
        (some (err not_hash, db')) (λ h. store_hash h key (update_fields values h) db')
        (put-IsValid key v' (string_t []) tt) v'
        (λ h. store_hash-Keeps key v' h (update_fields values h))

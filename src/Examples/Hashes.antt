-- ===== src/Examples/Hashes.antt =====
-- The operations on hashes.
use vanity.Base.{◌≡◌, refl, none, some, ok, err, [], ◌∷◌, ◌-◌, length, if◌then◌else◌}
use vanity.Std.Text.{text_eq}
use vanity.Std.Map
use vanity.Std.Map.{find}
use vanity.Operations.{string_t, hash_t}
use vanity.Database.{Database, put}
use vanity.Database.Expiry.{refresh, erase_if_expired, is_expired}
use vanity.Database.General.{get}
use vanity.Database.HashDatabase.{not_hash, hash_update, hash_remove, erase_fields}
use vanity.Database.HashDatabase.Laws.{
  has_all, assign_all, hash_update_lem, get-hash_update, hash_remove_lem,
}
use vanity.Database.SetDatabase.Laws.{all_in}
use vanity.Examples.{a, b, key_h, absent, stock, early, pairs}

hash_update_example : hash_update early key_h ((b, a) ∷ []) stock ≡ (
    if has_all ((b, a) ∷ []) pairs
    then some
        (ok 0, put key_h (hash_t (assign_all ((b, a) ∷ []) pairs)) (refresh early key_h stock))
    else none)
unfolding find erase_if_expired is_expired text_eq
hash_update_example = hash_update_lem early key_h ((b, a) ∷ []) pairs stock refl

missing_hash_example :
    (d : Database) × ((hash_update early absent ((b, a) ∷ []) stock ≡ some (err not_hash, d))
      × ((get early absent d).0 ≡ some (string_t [])))
unfolding find erase_if_expired is_expired text_eq
missing_hash_example = get-hash_update early absent ((b, a) ∷ []) stock refl

hash_remove_example : hash_remove early key_h (a ∷ []) stock ≡ (
    if all_in (Map.keys pairs) (a ∷ [])
    then none
    else some (
      ok (length pairs - length (erase_fields (a ∷ []) pairs)),
      put key_h (hash_t (erase_fields (a ∷ []) pairs)) (refresh early key_h stock),
    ))
unfolding find erase_if_expired is_expired text_eq
hash_remove_example = hash_remove_lem early key_h (a ∷ []) pairs stock refl

-- ===== src/Examples/Sets.antt =====
-- The operations on sets.
use Prim.Native.Nat.{min}
use vanity.Base.{◌≡◌, refl, some, false, length, not, ◌&&◌, [], ◌∷◌}
use vanity.Std.Text.{text_eq}
use vanity.Std.Map.{find}
use vanity.Std.Set.{member}
use vanity.Database.Expiry.{refresh_all, erase_if_expired, is_expired}
use vanity.Database.SetDatabase.{on_set, set_all, set_remove}
use vanity.Database.SetDatabase.Algebra.{set_union, set_intersection}
use vanity.Database.SetDatabase.AlgebraLaws.{
  in_union, in_intersection, set_union_lem, set_intersection_lem,
}
use vanity.Database.SetDatabase.Removal.{set_remove_lem, set_all-set_remove}
use vanity.Examples.{a, b, c, key_s, key_t, absent, stock, early, env_at}

set_union_example :
    on_set (member c) (set_union early (key_s ∷ absent ∷ key_t ∷ []) stock).0
    ≡ in_union c
        (key_s ∷ absent ∷ key_t ∷ [])
        (refresh_all early (key_s ∷ absent ∷ key_t ∷ []) stock).m_data
set_union_example = set_union_lem early (key_s ∷ absent ∷ key_t ∷ []) stock c

set_intersection_example :
    on_set (member b) (set_intersection early (key_s ∷ key_t ∷ []) stock).0
    ≡ in_intersection b (key_s ∷ key_t ∷ []) (refresh_all early (key_s ∷ key_t ∷ []) stock).m_data
set_intersection_example = set_intersection_lem early (key_s ∷ key_t ∷ []) stock b

-- Position 0 is drawn, of the two elements of the set.
drawn_example :
    (on_set length (set_remove (env_at early) key_s 1 stock).0 ≡ some (min 1 (length (a ∷ b ∷ []))))
    × (on_set
          (λ removed. member b removed && not (member b (a ∷ b ∷ [])))
          (set_remove (env_at early) key_s 1 stock).0
        ≡ some false)
unfolding find erase_if_expired is_expired text_eq member
drawn_example =
    set_remove_lem (env_at early) key_s b 1 stock (a ∷ b ∷ []) (λ i n h. h) refl (refl, (refl, tt))

set_remove_example :
    on_set (member a) (set_all early key_s (set_remove (env_at early) key_s 1 stock).1).0
    ≡ on_set
        (λ removed. member a (a ∷ b ∷ []) && not (member a removed))
        (set_remove (env_at early) key_s 1 stock).0
unfolding find erase_if_expired is_expired text_eq
set_remove_example = set_all-set_remove (env_at early) key_s a 1 stock (a ∷ b ∷ []) refl

-- ===== src/Examples/Keys.antt =====
-- Reads, writes, transfers and purges of keys.
use vanity.Base.{pos, ◌≡◌, refl, true, not, ◌&&◌, none, some, if◌then◌else◌, arith}
use vanity.Std.Text.{text_eq}
use vanity.Std.Map.{find, contains, is_some}
use vanity.Std.Set.{member}
use vanity.Operations.{list_t}
use vanity.Database.Expiry.{is_expired, shallow_purge, erase_if_expired}
use vanity.Database.Expiry.Purge.{keys_lem, shallow_purge_ends}
use vanity.Database.General
use vanity.Database.General.{get, del, move_to, copy_to}
use vanity.Database.General.{move_to_db}
use vanity.Database.{Database}
use vanity.Operations.{int_t}
use vanity.Base.{[], ◌∷◌, true}
use vanity.Database.Transfers.{get-move_to, get-move_to_db}
use vanity.Examples.{key_l, key_n, letters, stock, early, late, env_at}

keys_example :
    member key_n (General.keys late stock).0
    ≡ contains key_n stock.m_data && not (is_expired late key_n stock)
keys_example = keys_lem late key_n stock

shallow_purge_example : is_some (shallow_purge 2 (env_at late) stock) ≡ true
shallow_purge_example = shallow_purge_ends 2 (env_at late) stock (omega arith)

-- The list is moved to the key of an integer that has expired, and is lost.
move_to_example : (get late key_n (move_to late key_l key_n stock).1).0 ≡ (
    if text_eq key_l key_n
    then none
    else if text_eq key_n key_n
    then (if not (contains key_l stock.m_expiry_times) && is_expired late key_n stock
        then none
        else some (list_t letters))
    else (get late key_n stock).0)
unfolding get erase_if_expired is_expired find text_eq
move_to_example = get-move_to late key_l key_n (list_t letters) key_n stock refl refl

-- The list is moved to another database, where its key holds an integer that has expired.
abbrev depot : Database
depot = record {
  m_index = 1;
  m_data = (key_l, int_t (pos 1)) ∷ [];
  m_expiry_times = (key_l, pos 2) ∷ [];
  m_expiry_enabled = true;
  wal = [];
}

move_to_db_example :
    ((get early key_l (move_to_db early key_l stock depot).1).0
      ≡ (if text_eq key_l key_l then none else (get early key_l stock).0))
    × ((get early key_l (move_to_db early key_l stock depot).2).0 ≡ (
        if text_eq key_l key_l
        then (if not (contains key_l stock.m_expiry_times) && is_expired early key_l depot
            then none
            else some (list_t letters))
        else (get early key_l depot).0))
unfolding get erase_if_expired is_expired find text_eq
move_to_db_example = get-move_to_db early key_l key_l (list_t letters) stock depot refl refl refl

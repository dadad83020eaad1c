-- ===== src/Examples/Files.antt =====
-- The small database, written to a file and read again.
use vanity.Base.{◌≡◌, some, [], ◌∷◌, ◌++◌, arith}
use vanity.Std.Text.{Text, text_eq}
use vanity.Std.Map.{find}
use vanity.Database.{Database}
use vanity.Serializer.{from, persist}
use vanity.Serializer.Databases.{SameValue, CanBePersisted, from-persist}
use vanity.Examples.{stock}

stock-CanBePersisted : CanBePersisted stock
unfolding find text_eq
stock-CanBePersisted = ground arith

from_example :
    (e : Database) × (from (persist stock ++ 7 ∷ []) ≡ some (e, 7 ∷ []))
    × (e.m_index ≡ stock.m_index)
    × ((k : Text) → SameValue (find k e.m_data) (find k stock.m_data))
    × ((k : Text) → find k e.m_expiry_times ≡ find k stock.m_expiry_times)
from_example = from-persist stock (7 ∷ []) stock-CanBePersisted

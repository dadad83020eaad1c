-- ===== src/Database.antt =====
-- The state of one database: vanity/db/db/base_map.h, the fields of expiry_database.h and
-- database.h in that folder, and what a database has handed to its write-ahead logger.
pub mod Expiry
pub mod General
pub mod Primitive
pub mod Valid
pub mod Transfers
pub mod Writes
pub mod ListDatabase
pub mod SetDatabase
pub mod HashDatabase
use vanity.Base.{ℕ, ℤ, ◌≡◌, Bool, true, false, Option, some, List, [], arith}
use vanity.Std.Text.{Text}
use vanity.Std.Map.{Map, find, contains}
use vanity.Std.Set.{Set, IsSetValue}
use vanity.Operations.{Data, string_t, list_t, set_t, WalEntry}

pub record Database : Type 0 where
  pub m_index : ℕ
  pub m_data : Map Data
  pub m_expiry_times : Map ℤ
  pub m_expiry_enabled : Bool
  pub wal : List WalEntry

-- What an operation takes from outside the program: the clock, the draws of the random generator
-- (`draw i n` is the i-th draw from the distribution over 0 to n - 1), the sample of some keys
-- that the standard library chooses in a round of a purge, and the addition of doubles.
pub record Env : Type 0 where
  pub now : ℤ
  pub draw : ℕ → ℕ → ℕ
  pub sample : ℕ → List Text → ℕ → List Text
  pub float_add : ℕ → ℕ → ℕ

-- A list that is stored is not empty, and a set holds no element twice.
abbrev pub IsStorable : Data → Type 0
IsStorable (list_t []) = ⊥
IsStorable (set_t s) = IsSetValue s
IsStorable _ = Unit

-- A key with an expiry time has a value, and the values are storable.
pub record IsValid (db : Database) : Type 0 where
  pub timed : (k : Text) → contains k db.m_expiry_times ≡ true → contains k db.m_data ≡ true
  pub stored : (k : Text) (d : Data) → find k db.m_data ≡ some d → IsStorable d

-- m_data[key] = value
abbrev pub put : Text → Data → Database → Database
put k d db = record db { m_data = vanity.Std.Map.assign k d db.m_data }

-- Database(index)
abbrev pub new_database : ℕ → Database
new_database index = record {
  m_index = index;
  m_data = [];
  m_expiry_times = [];
  m_expiry_enabled = true;
  wal = [];
}

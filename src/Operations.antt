-- ===== src/Operations.antt =====
-- vanity/db/db/types.h, vanity/db/db/db_operations.h and vanity/db/wal/wal_entry_t.h: the values
-- that a key may hold, the operations on a database, and the entries of the write-ahead log.
use vanity.Base.{ℕ, ℤ, Bool, true, false, List}
use vanity.Std.Text.{Text}
use vanity.Std.Map.{Map}
use vanity.Std.Set.{Set}

-- db_data_type. A double is its 64-bit pattern.
pub data Data : Type 0 where
  string_t : Text → Data
  int_t : ℤ → Data
  float_t : ℕ → Data
  list_t : List Text → Data
  set_t : Set → Data
  hash_t : Map Text → Data

-- db_op_t, each with the arguments that are logged and read back with it
pub data DbOp : Type 0 where
  begin commit discard : DbOp
  reset keys clear_all_expiry many_set : DbOp
  has del get type clear_expiry get_expiry str_len : Text → DbOp
  copy_to move_to : Text → Text → DbOp
  copy_to_db move_to_db : Text → ℕ → DbOp
  set_expiry : Text → ℤ → DbOp
  str_set : Text → Text → DbOp
  int_set incr_int : Text → ℤ → DbOp
  float_set incr_float : Text → ℕ → DbOp
  many_get : List Text → DbOp
  list_len : Text → DbOp
  list_get list_pop_left list_pop_right : Text → ℤ → DbOp
  list_set : Text → ℤ → Text → DbOp
  list_push_left list_push_right : Text → List Text → DbOp
  list_range list_trim : Text → ℤ → ℤ → DbOp
  list_remove : Text → Text → ℤ → DbOp
  set_add set_discard : Text → Set → DbOp
  set_all set_len : Text → DbOp
  set_remove : Text → ℕ → DbOp
  set_contains : Text → Text → DbOp
  set_move : Text → Text → Text → DbOp
  set_union set_union_len set_intersection set_intersection_len : List Text → DbOp
  set_union_into set_intersection_into : Text → List Text → DbOp
  set_difference set_difference_len : Text → Text → DbOp
  set_difference_into : Text → Text → Text → DbOp
  hash_set hash_update : Text → Map Text → DbOp
  hash_all hash_len hash_keys hash_values : Text → DbOp
  hash_get hash_contains hash_key_len : Text → Text → DbOp
  hash_remove hash_many_get : Text → List Text → DbOp

-- check if a db_op_t should be written to the WAL
unfoldable pub should_wal : DbOp → Bool
should_wal (has _) = false
should_wal (get _) = false
should_wal (type _) = false
should_wal keys = false
should_wal (get_expiry _) = false
should_wal (str_len _) = false
should_wal (many_get _) = false
should_wal (list_len _) = false
should_wal (list_get _ _) = false
should_wal (list_range _ _ _) = false
should_wal (set_all _) = false
should_wal (set_len _) = false
should_wal (set_contains _ _) = false
should_wal (set_union _) = false
should_wal (set_union_len _) = false
should_wal (set_intersection _) = false
should_wal (set_intersection_len _) = false
should_wal (set_difference _ _) = false
should_wal (set_difference_len _ _) = false
should_wal (hash_all _) = false
should_wal (hash_get _ _) = false
should_wal (hash_contains _ _) = false
should_wal (hash_len _) = false
should_wal (hash_key_len _ _) = false
should_wal (hash_keys _) = false
should_wal (hash_values _) = false
should_wal (hash_many_get _ _) = false
should_wal _ = true

-- wal_entry_t, with what follows it: the transaction and the operation, or the key that expires.
-- The index of the database is the same in all entries of one database.
pub data WalEntry : Type 0 where
  db_op : ℕ → DbOp → WalEntry
  expire : Text → WalEntry

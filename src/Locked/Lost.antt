-- ===== src/Locked/Lost.antt =====
-- A logged operation that meets an expired key: the log has the operation before the expiry that
-- came first, so the replay ends with the key erased.
use vanity.Base.{ℕ, ℤ, ◌≡◌, ap, true, false, none, some, List, [], ◌∷◌, ◌++◌, arith}
use vanity.Std.Text.{Text}
use vanity.Std.Map
use vanity.Std.Map.{Map, find, find-erase_self, find-assign_self, contains}
use vanity.Operations.{int_t, DbOp, WalEntry}
use vanity.Database.{Database, Env, put}
use vanity.Database.Expiry.{is_expired, erase_if_expired, expire, refresh}
use vanity.Base.{◌+ℤ◌, refl}
use vanity.Locked.{wal_redo_expiry, unit}
use vanity.Database.Primitive.{in_int64, add_int, incr_int, incr_int_found}
use vanity.Locked.{int, attempt, done, run, execute, redo_entry, do_recover}
use mathlib.Core.List.{append_assoc}
use vanity.Locked.Quiet.{aside}

refresh_late :
    (now : ℤ) (key : Text) (db : Database)
    → is_expired now key db ≡ true
    → refresh now key db ≡ expire key db
unfolding erase_if_expired
refresh_late now key db late = ground (arith, late)

incr_int_expired :
    (now : ℤ) (key : Text) (x : ℤ) (db : Database)
    → is_expired now key db ≡ true
    → incr_int now key x db ≡ some (some x, put key (int_t x) (expire key db))
unfolding incr_int expire
incr_int_expired now key x db late =
    rw (refresh_late now key db late, incr_int_found)
      (ground (arith, find-erase_self key db.m_data))

-- What INCR_INT leaves behind where its key has expired.
abbrev pub started_anew : ℕ → Text → ℤ → Database → Database
unfolding execute expire
started_anew trn key x db =
    put key (int_t x)
      (expire key (record db { wal = db.wal ++ WalEntry.db_op trn (DbOp.incr_int key x) ∷ [] }))

-- The redo of INCR_INT, with expiry disabled, finds the old value.
redo_incr_int :
    (now : ℤ) (w : List WalEntry) (key : Text) (x v : ℤ) (db : Database)
    → find key db.m_data ≡ some (int_t v)
    → in_int64 (v +ℤ x) ≡ true
    → incr_int now key x (aside false w db)
      ≡ some (some (v +ℤ x), put key (int_t (v +ℤ x)) (aside false w db))
unfolding incr_int incr_int_found add_int erase_if_expired is_expired
redo_incr_int now w key x v db h fits = rw h (ground (arith, fits))

-- What the replay of the log ends with.
abbrev pub lost : List WalEntry → Text → ℤ → Database → Database
unfolding wal_redo_expiry
lost w key sum db = wal_redo_expiry key (put key (int_t sum) (aside false w db))

-- INCR_INT of a key whose value is an integer that has expired answers with the increment and stores
-- it under the key. The replay of the two entries that it logs, from the state before it and with
-- expiry disabled, ends in a state without a value for the key, if the sum of the old value and
-- the increment fits: the expiry is redone after the operation that it came before.
pub incr_int-lost :
    (env env' : Env) (w : List WalEntry) (trn : ℕ) (key : Text) (x v : ℤ) (db : Database)
    → is_expired env.now key db ≡ true
    → find key db.m_data ≡ some (int_t v)
    → in_int64 (v +ℤ x) ≡ true
    → (log : List WalEntry) × (execute env trn (DbOp.incr_int key x) db
        ≡ done (int (some x)) (started_anew trn key x db))
      × (find key (started_anew trn key x db).m_data ≡ some (int_t x))
      × ((started_anew trn key x db).wal ≡ db.wal ++ log)
      × (do_recover env' log (aside false w db) ≡ done unit (lost w key (v +ℤ x) db))
      × (find key (lost w key (v +ℤ x) db).m_data ≡ none)
unfolding execute run is_expired expire do_recover redo_entry wal_redo_expiry
incr_int-lost env env' w trn key x v db late h fits = (
  WalEntry.db_op trn (DbOp.incr_int key x) ∷ WalEntry.expire key ∷ [],
  ap (attempt int) (
      incr_int_expired env.now key x
        (record db { wal = db.wal ++ WalEntry.db_op trn (DbOp.incr_int key x) ∷ [] }) late),
  find-assign_self key (int_t x) (Map.erase key db.m_data),
  append_assoc db.wal (WalEntry.db_op trn (DbOp.incr_int key x) ∷ []) (WalEntry.expire key ∷ []),
  rw (redo_incr_int env'.now w key x v db h fits) refl,
  find-erase_self key (Map.assign key (int_t (v +ℤ x)) db.m_data),
)

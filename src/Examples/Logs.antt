-- ===== src/Examples/Logs.antt =====
-- The write-ahead log, its replay, and crashes while the databases are persisted.
use vanity.Base.{ℕ, ◌+◌, ◌+ℤ◌, pos, ◌≡◌, refl, true, false, none, some, List, [], ◌∷◌, ◌++◌, arith}
use vanity.Std.Text.{text_eq}
use vanity.Std.Set.{member}
use vanity.Std.Map.{find, assign}
use vanity.Operations.{int_t, list_t, set_t, hash_t, DbOp, WalEntry, should_wal}
use vanity.Database.{Database, IsValid, put, new_database}
use vanity.Database.Expiry.Laws.{put-IsValid, set_expiry-IsValid}
use vanity.Database.Expiry.{erase_if_expired, is_expired, set_expiry, deep_purge}
use vanity.Database.Primitive.{incr_int, incr_int_found, add_int, in_int64}
use vanity.Journal.{starts, wal_error, Files, pre_database_load}
use vanity.Journal.Crash.{
  IsConsistent, clean, interrupted, crash_safe, second_crash, stale_journal_drops_log,
}
use vanity.Locked.{execute, do_recover, recover, done, int, unit, run, wal_log}
use vanity.Locked.Lost.{incr_int-lost, started_anew, lost}
use vanity.Locked.Quiet.{IsQuiet, aside}
use vanity.Locked.Replay.{Serves, idle, call, recover-Serves}
use vanity.Locked.Valid.{Ends, execute-IsValid, do_recover-IsValid}
use vanity.Examples.{
  a, b, c, letters, pairs, key_l, key_s, key_t, key_h, key_n, stock, early, late, env_at,
}

empty-IsValid : IsValid (new_database 0)
unfolding find
empty-IsValid = record { timed = λ k h. ground arith; stored = λ k d h. ground arith }

stock-IsValid : IsValid stock
unfolding find assign set_expiry text_eq member
stock-IsValid =
    let v1 = put-IsValid key_l empty-IsValid (list_t letters) tt in
    let v2 = put-IsValid key_s v1 (set_t (a ∷ b ∷ [])) (ground arith) in
    let v3 = put-IsValid key_t v2 (set_t (b ∷ c ∷ [])) (ground arith) in
    let v4 = put-IsValid key_h v3 (hash_t pairs) tt in
    let v5 = put-IsValid key_n v4 (int_t (pos 5)) tt in set_expiry-IsValid v5 key_n (pos 10)

-- Nothing expires before 10.
stock-IsQuiet : IsQuiet early stock
unfolding is_expired find
stock-IsQuiet k = ground arith

-- The database after INCR_INT by 2.
abbrev stock_after : Database
stock_after =
    put key_n (int_t (pos 7))
      (record stock { wal = WalEntry.db_op 4 (DbOp.incr_int key_n (pos 2)) ∷ [] })

served : Serves (λ x y. x + y) stock stock_after
unfolding execute run wal_log should_wal incr_int incr_int_found add_int in_int64 ◌+ℤ◌
    erase_if_expired is_expired find assign text_eq
served =
    call (env_at early) 4 (DbOp.incr_int key_n (pos 2)) (int (some (pos 7))) refl stock-IsQuiet tt
      refl idle

recover_run_example :
    (log : List WalEntry) × ((stock_after.wal ≡ stock.wal ++ log)
      × (recover (env_at late) log (aside true [] stock)
          ≡ done unit (deep_purge late (aside true [] stock_after))))
recover_run_example = recover-Serves (env_at late) [] true served

execute_example : Ends IsValid (execute (env_at late) 4 (DbOp.set_discard key_s (a ∷ [])) stock)
execute_example = execute-IsValid (env_at late) 4 (DbOp.set_discard key_s (a ∷ [])) stock-IsValid

recover_example : Ends IsValid (
    do_recover
      (env_at late)
      (WalEntry.db_op 4 (DbOp.list_pop_left key_l (pos 3)) ∷ WalEntry.expire key_n ∷ [])
      stock)
recover_example =
    do_recover-IsValid (env_at late)
      (WalEntry.db_op 4 (DbOp.list_pop_left key_l (pos 3)) ∷ WalEntry.expire key_n ∷ [])
      stock-IsValid

lost_example :
    (log : List WalEntry) × (execute (env_at late) 4 (DbOp.incr_int key_n (pos 1)) stock
      ≡ done (int (some (pos 1))) (started_anew 4 key_n (pos 1) stock))
    × (find key_n (started_anew 4 key_n (pos 1) stock).m_data ≡ some (int_t (pos 1)))
    × ((started_anew 4 key_n (pos 1) stock).wal ≡ stock.wal ++ log)
    × (do_recover (env_at late) log (aside false [] stock)
        ≡ done unit (lost [] key_n (pos 5 +ℤ pos 1) stock))
    × (find key_n (lost [] key_n (pos 5 +ℤ pos 1) stock).m_data ≡ none)
unfolding is_expired find text_eq in_int64 ◌+ℤ◌
lost_example =
    incr_int-lost (env_at late) (env_at late) [] 4 key_n (pos 1) (pos 5) stock refl refl refl

-- Database files and logs are numbers here. The persisting is cut off after the old file has moved.
crash_example :
    IsConsistent {C = ℕ} {W = ℕ}
      (some 1)
      (some 2)
      4
      5
      (pre_database_load (interrupted 6 3 4 5 (clean (some 1) none (some 2))))
crash_example = crash_safe 3 4 5 none (some 2) 6 (some 1)

second_crash_example :
    (g : Files ℕ ℕ) × (pre_database_load (interrupted 11 3 4 5 (clean (some 1) none (some 2)))
      ≡ starts g)
    × (pre_database_load (interrupted 5 6 7 8 g) ≡ wal_error)
second_crash_example = second_crash 3 4 6 7 5 8 1 none (some 2)

drops_log_example :
    (g : Files ℕ ℕ) × (pre_database_load (interrupted 9 3 4 5 (clean (some 1) none (some 2)))
      ≡ starts g)
    × (pre_database_load (record g { wal_file = some 9 }) ≡ starts (record g { wal_file = none }))
drops_log_example = stale_journal_drops_log 3 4 3 4 5 5 1 none (some 2) 9

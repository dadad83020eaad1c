-- ===== src/Journal/Crash.antt =====
-- A crash at any point while the databases are persisted, and the start after it.
use vanity.Base.{ℕ, zero, suc, ◌≡◌, refl, ◌⊎◌, inl, inr, Option, none, some, [], ◌∷◌, take}
use vanity.Journal.{
  db_file_exist, moving_existing_db_file, moved_existing_db_file, moved_new_db_file, Files, act_all,
  persist_with_wal, Start, starts, wal_error, filesystem_error, pre_database_load,
}

module _ {C W : Type 0} where
  -- The start goes on with the database file and the log from before the persisting, or with the
  -- new file and no log or a fresh one.
  abbrev pub IsConsistent : Option C → Option W → C → W → Start C W → Type 0
  IsConsistent db wal new fresh (starts g) =
      ((g.db_file ≡ db) × (g.wal_file ≡ wal))
      ⊎ ((g.db_file ≡ some new) × ((g.wal_file ≡ none) ⊎ (g.wal_file ≡ some fresh)))
  IsConsistent db wal new fresh _ = ⊥

  -- The files when every persisting so far has come to its end: no journal and no old file.
  abbrev pub clean : Option C → Option C → Option W → Files C W
  clean db tmp wal = record {
    db_file = db;
    tmp_db_file = tmp;
    old_db_file = none;
    wal_file = wal;
    journal_file = none;
  }

  -- The files after the first n steps of persist_with_wal.
  unfoldable pub interrupted : ℕ → C → C → W → Files C W → Files C W
  unfolding act_all persist_with_wal
  interrupted n partial new fresh f = act_all (take n (persist_with_wal partial new fresh f)) f

module _ {C W : Type 0} (partial new : C) (fresh : W) (tmp : Option C) (wal : Option W) where
  crash_exist :
      (n : ℕ) (c : C)
      → IsConsistent
          (some c)
          wal
          new
          fresh
          (pre_database_load (interrupted n partial new fresh (clean (some c) tmp wal)))
  unfolding interrupted pre_database_load
  crash_exist zero c = inl (refl, refl)
  crash_exist (suc zero) c = inl (refl, refl)
  crash_exist (suc (suc zero)) c = inl (refl, refl)
  crash_exist (suc (suc (suc zero))) c = inl (refl, refl)
  crash_exist (suc (suc (suc (suc zero)))) c = inl (refl, refl)
  crash_exist (suc (suc (suc (suc (suc zero))))) c = inl (refl, refl)
  crash_exist (suc (suc (suc (suc (suc (suc zero)))))) c = inl (refl, refl)
  crash_exist (suc (suc (suc (suc (suc (suc (suc zero))))))) c = inl (refl, refl)
  crash_exist (suc (suc (suc (suc (suc (suc (suc (suc zero)))))))) c = inl (refl, refl)
  crash_exist (suc (suc (suc (suc (suc (suc (suc (suc (suc zero))))))))) c = inr (refl, inl refl)
  crash_exist (suc (suc (suc (suc (suc (suc (suc (suc (suc (suc zero)))))))))) c =
      inr (refl, inl refl)
  crash_exist (suc (suc (suc (suc (suc (suc (suc (suc (suc (suc (suc zero))))))))))) c =
      inr (refl, inl refl)
  crash_exist (suc (suc (suc (suc (suc (suc (suc (suc (suc (suc (suc (suc zero)))))))))))) c =
      inr (refl, inl refl)
  crash_exist (suc (suc (suc (suc (suc (suc (suc (suc (suc (suc (suc (suc (suc zero))))))))))))) c =
      inr (refl, inr refl)
  crash_exist (suc (suc (suc (suc (suc (suc (suc (suc (suc (suc (suc (suc (suc (suc n))))))))))))))
        c =
      inr (refl, inr refl)

  crash_no_exist :
      (n : ℕ)
      → IsConsistent none wal new fresh
          (pre_database_load (interrupted n partial new fresh (clean none tmp wal)))
  unfolding interrupted pre_database_load
  crash_no_exist zero = inl (refl, refl)
  crash_no_exist (suc zero) = inl (refl, refl)
  crash_no_exist (suc (suc zero)) = inl (refl, refl)
  crash_no_exist (suc (suc (suc zero))) = inl (refl, refl)
  crash_no_exist (suc (suc (suc (suc zero)))) = inl (refl, refl)
  crash_no_exist (suc (suc (suc (suc (suc zero))))) = inr (refl, inl refl)
  crash_no_exist (suc (suc (suc (suc (suc (suc zero)))))) = inr (refl, inl refl)
  crash_no_exist (suc (suc (suc (suc (suc (suc (suc zero))))))) = inr (refl, inl refl)
  crash_no_exist (suc (suc (suc (suc (suc (suc (suc (suc zero)))))))) = inr (refl, inr refl)
  crash_no_exist (suc (suc (suc (suc (suc (suc (suc (suc (suc n))))))))) = inr (refl, inr refl)

  -- From files without a journal or an old database file, whatever the number of steps after which persist_with_wal is cut off, the next
  -- start succeeds: with the database file and the log from before, or with the new file and no
  -- log, or a fresh one.
  pub crash_safe :
      (n : ℕ) (db : Option C)
      → IsConsistent db wal new fresh
          (pre_database_load (interrupted n partial new fresh (clean db tmp wal)))
  crash_safe n none = crash_no_exist n
  crash_safe n (some c) = crash_exist n c

module _ {C W : Type 0} (partial new partial' new' : C) (fresh fresh' : W) where
  -- A persisting that is cut off just before its last removal leaves the old database file behind,
  -- and the server starts. If the next persisting is cut off after it has announced, and not yet
  -- done, the move of the database file, the server does not start again: it finds both files.
  pub second_crash :
      (c : C) (tmp : Option C) (wal : Option W)
      → (g : Files C W) × (pre_database_load
            (interrupted 11 partial new fresh (clean (some c) tmp wal))
          ≡ starts g)
        × (pre_database_load (interrupted 5 partial' new' fresh' g) ≡ wal_error)
  unfolding interrupted pre_database_load
  second_crash c tmp wal = (
    record {
      db_file = some new;
      tmp_db_file = none;
      old_db_file = some c;
      wal_file = none;
      journal_file = none;
    },
    refl,
    refl,
  )

  -- A start leaves the journal as it is. After a crash behind the last entry of the journal the
  -- server starts with the new file; if it crashes once more before the next persisting, the next
  -- start removes the log, whatever has been logged by then.
  pub stale_journal_drops_log :
      (c : C) (tmp : Option C) (wal : Option W) (logged : W)
      → (g : Files C W) × (pre_database_load
            (interrupted 9 partial new fresh (clean (some c) tmp wal))
          ≡ starts g)
        × (pre_database_load (record g { wal_file = some logged })
            ≡ starts (record g { wal_file = none }))
  unfolding interrupted pre_database_load
  stale_journal_drops_log c tmp wal logged = (
    record {
      db_file = some new;
      tmp_db_file = none;
      old_db_file = some c;
      wal_file = none;
      journal_file = some (
          db_file_exist ∷ moving_existing_db_file ∷ moved_existing_db_file ∷ moved_new_db_file
          ∷ []);
    },
    refl,
    refl,
  )

  -- After a crash behind the entry that the old file has been moved, the first start moves it back,
  -- and a second start before the next persisting fails: there is no file to move back.
  pub stale_journal_stops_start :
      (c : C) (tmp : Option C) (wal logged : Option W)
      → (g : Files C W) × (pre_database_load
            (interrupted 7 partial new fresh (clean (some c) tmp wal))
          ≡ starts g)
        × (pre_database_load (record g { wal_file = logged }) ≡ filesystem_error)
  unfolding interrupted pre_database_load
  stale_journal_stops_start c tmp wal logged = (
    record {
      db_file = some c;
      tmp_db_file = some new;
      old_db_file = none;
      wal_file = wal;
      journal_file = some (db_file_exist ∷ moving_existing_db_file ∷ moved_existing_db_file ∷ []);
    },
    refl,
    refl,
  )

-- ===== src/Journal.antt =====
-- vanity/db/wal/journal.cpp, journalist.cpp and the files of persist_journal_server.cpp there: how a
-- new database file takes the place of the old one, with a journal that a start after a crash reads.
-- One write to the journal, which is flushed, one rename and one removal are single steps.
pub mod Crash
use vanity.Base.{ℕ, Bool, true, false, Option, none, some, List, [], ◌∷◌, ◌++◌, if◌then◌else◌}
use vanity.Std.Map.{is_some}

-- JournalState, as the journal holds it. The path that follows moving_existing_db_file is always
-- that of the old database file.
pub data JournalState : Type 0 where
  empty_journal db_file_no_exist db_file_exist moving_existing_db_file : JournalState
  moved_existing_db_file moved_new_db_file : JournalState

-- The files, by what they hold: database files of type C, and a log of type W.
pub record Files (C W : Type 0) : Type 0 where
  pub db_file : Option C
  pub tmp_db_file : Option C
  pub old_db_file : Option C
  pub wal_file : Option W
  pub journal_file : Option (List JournalState)

-- What the persisting server does to its files.
pub data Action (C W : Type 0) : Type 0 where
  open_journal : Action C W
  journal : JournalState → Action C W
  write_tmp : C → Action C W
  rename_db_to_old rename_tmp_to_db : Action C W
  remove_wal remove_old wipe_journal : Action C W
  open_wal : W → Action C W

-- a write to a journal that is open, and so exists
abbrev pub append_state : Option (List JournalState) → JournalState → Option (List JournalState)
append_state none s = some (s ∷ [])
append_state (some l) s = some (l ++ s ∷ [])

-- WriteAheadLogger::wal_to opens to append: a log that is there is kept
abbrev pub kept_or_new : {W : Type 0} → Option W → W → Option W
kept_or_new none w = some w
kept_or_new (some v) w = some v

-- A journal that is not there reads as an empty one.
abbrev pub states : Option (List JournalState) → List JournalState
states none = []
states (some l) = l

module _ {C W : Type 0} where
  unfoldable pub act : Action C W → Files C W → Files C W
  act open_journal f = record f { journal_file = some [] }
  act (journal s) f = record f { journal_file = append_state f.journal_file s }
  act (write_tmp c) f = record f { tmp_db_file = some c }
  act rename_db_to_old f = record f { old_db_file = f.db_file; db_file = none }
  act rename_tmp_to_db f = record f { db_file = f.tmp_db_file; tmp_db_file = none }
  act remove_wal f = record f { wal_file = none }
  act remove_old f = record f { old_db_file = none }
  act wipe_journal f = record f { journal_file = none }
  act (open_wal w) f = record f { wal_file = kept_or_new f.wal_file w }

  unfoldable pub act_all : List (Action C W) → Files C W → Files C W
  unfolding act
  act_all [] f = f
  act_all (a ∷ rest) f = act_all rest (act a f)

  -- Journalist::journal_db_file_exist
  unfoldable pub journal_db_file_exist : List (Action C W)
  journal_db_file_exist =
      journal db_file_exist
      ∷ journal moving_existing_db_file
      ∷ rename_db_to_old
      ∷ journal moved_existing_db_file
      ∷ rename_tmp_to_db
      ∷ journal moved_new_db_file
      ∷ remove_wal
      ∷ wipe_journal
      ∷ remove_old
      ∷ []

  -- Journalist::journal_db_file_no_exist
  unfoldable pub journal_db_file_no_exist : List (Action C W)
  journal_db_file_no_exist =
      journal db_file_no_exist ∷ rename_tmp_to_db ∷ remove_wal ∷ wipe_journal ∷ []

  -- Journalist::switch_and_journal
  unfoldable pub switch_and_journal : Files C W → List (Action C W)
  unfolding journal_db_file_exist journal_db_file_no_exist
  switch_and_journal f =
      if is_some f.db_file then journal_db_file_exist else journal_db_file_no_exist

  -- persist_with_wal: the Journalist opens the journal, the databases go to the temporary file
  -- (`partial` is what it holds while they are written), the files are switched, and the log is
  -- opened again, empty if it is gone.
  unfoldable pub persist_with_wal : C → C → W → Files C W → List (Action C W)
  unfolding switch_and_journal
  persist_with_wal partial new fresh f =
      open_journal
      ∷ write_tmp partial
      ∷ write_tmp new
      ∷ (switch_and_journal f ++ open_wal fresh ∷ [])

-- RecoveredJournal: the state that a journal stands for, `none` if it is corrupt.
unfoldable pub recovered_state : List JournalState → Option JournalState
recovered_state [] = some empty_journal
recovered_state (db_file_no_exist ∷ []) = some db_file_no_exist
recovered_state (db_file_exist ∷ []) = some db_file_exist
recovered_state (db_file_exist ∷ moving_existing_db_file ∷ []) = some moving_existing_db_file
recovered_state (db_file_exist ∷ moving_existing_db_file ∷ moved_existing_db_file ∷ []) =
    some moved_existing_db_file
recovered_state
      (db_file_exist ∷ moving_existing_db_file ∷ moved_existing_db_file ∷ moved_new_db_file ∷ []) =
    some moved_new_db_file
recovered_state _ = none

-- How pre_database_load ends: the server goes on with these files, or it does not start, for a
-- corrupt journal, a violation of the journal, or a rename of a file that is not there.
pub data Start (C W : Type 0) : Type 0 where
  starts : Files C W → Start C W
  corrupt_journal wal_error filesystem_error : Start C W

module _ {C W : Type 0} where
  -- rename(old, *m_db_file)
  unfoldable pub rename_old_to_db : Option C → Files C W → Start C W
  rename_old_to_db none f = filesystem_error
  rename_old_to_db (some c) f = starts (record f { db_file = some c; old_db_file = none })

  -- the case MOVING_EXISTING_DB_FILE
  unfoldable pub load_moving : Files C W → Start C W
  unfolding rename_old_to_db
  load_moving f =
      if is_some f.db_file
      then (if is_some f.old_db_file then wal_error else starts f)
      else if is_some f.old_db_file
      then rename_old_to_db f.old_db_file f
      else wal_error

  unfoldable pub load_state : Option JournalState → Files C W → Start C W
  unfolding load_moving rename_old_to_db
  load_state none f = corrupt_journal
  load_state (some empty_journal) f = starts f
  load_state (some db_file_no_exist) f =
      starts (if is_some f.db_file then record f { wal_file = none } else f)
  load_state (some db_file_exist) f = starts f
  load_state (some moving_existing_db_file) f = load_moving f
  load_state (some moved_existing_db_file) f = rename_old_to_db f.old_db_file f
  load_state (some moved_new_db_file) f = starts (record f { wal_file = none })

  unfoldable pub pre_database_load : Files C W → Start C W
  unfolding load_state recovered_state
  pre_database_load f = load_state (recovered_state (states f.journal_file)) f

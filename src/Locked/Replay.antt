-- ===== src/Locked/Replay.antt =====
-- What the log of a database recovers after a crash: the state before it, where no key expired in
-- between; and what it loses, where an operation met an expired key.
use vanity.Base.{
  ℕ, ◌≡◌, refl, ap, sym, ◌∙◌, true, false, List, [], ◌∷◌, ◌++◌, arith, Bool-cases, inl, inr,
  if◌then◌else◌,
}
use mathlib.Core.Path.{subst}
use mathlib.Core.List.{append-nil, append_assoc}
use vanity.Operations.{DbOp, should_wal, WalEntry}
use vanity.Database.{Database, Env}
use vanity.Database.Expiry.{is_expired}
use vanity.Locked.{
  Reply, unit, Outcome, done, throws, undefined, elsewhere, run, execute, redo_entry, do_recover,
  recover,
}
use vanity.Base.{Bool}
use vanity.Database.Expiry.{deep_purge, expiry_enabled}
use vanity.Locked.Valid.{Ends}
use vanity.Locked.Quiet.{aside, IsQuiet}
use vanity.Locked.Recovery.{on_state, IsRepeatable, run-redo}
use vanity.Locked.Reads.{run-reads}

-- A run of calls on one database, each at a time when no key of it has expired.
pub data Serves (add : ℕ → ℕ → ℕ) : Database → Database → Type 0 where
  idle : {db : Database} → Serves add db db
  call :
      {db db' db'' : Database} (env : Env) (trn : ℕ) (op : DbOp) (r : Reply)
      → env.float_add ≡ add
      → IsQuiet env.now db
      → IsRepeatable op
      → execute env trn op db ≡ done r db'
      → Serves add db' db''
      → Serves add db db''

module _ (env env' : Env) (w : List WalEntry) (trn : ℕ) (op : DbOp) (db : Database) where
  IsQuiet-off : IsQuiet env'.now (aside false w db)
  unfolding is_expired
  IsQuiet-off k = refl

  IsQuiet-on :
      (l : List WalEntry) → IsQuiet env.now db → IsQuiet env.now (aside db.m_expiry_enabled l db)
  unfolding is_expired
  IsQuiet-on l q k = q k

  -- A logged call writes one entry, whose redo does what the call did.
  call-logged :
      {r : Reply} {db' : Database}
      → env'.float_add ≡ env.float_add
      → IsQuiet env.now db
      → IsRepeatable op
      → should_wal op ≡ true
      → execute env trn op db ≡ done r db'
      → (db'.wal ≡ db.wal ++ WalEntry.db_op trn op ∷ [])
        × (redo_entry env' (WalEntry.db_op trn op) (aside false w db) ≡ done r (aside false w db'))
  unfolding execute redo_entry
  call-logged {r} {db'} f q s logged h =
      let log = db.wal ++ WalEntry.db_op trn op ∷ [] in
      go (run env trn op db)
        (sym (run-redo env env refl db.m_expiry_enabled log db q (IsQuiet-on log q) trn op s)
          ∙ live)
        (run-redo env env' f false w db q IsQuiet-off trn op s)
    where
      live :
          run env trn op (aside db.m_expiry_enabled (db.wal ++ WalEntry.db_op trn op ∷ []) db)
          ≡ done r db'
      live = rw logged at h

      go :
          (o : Outcome)
          → on_state (aside db.m_expiry_enabled (db.wal ++ WalEntry.db_op trn op ∷ [])) o
            ≡ done r db'
          → run env' trn op (aside false w db) ≡ on_state (aside false w) o
          → (db'.wal ≡ db.wal ++ WalEntry.db_op trn op ∷ [])
            × ((if should_wal op then run env' trn op (aside false w db) else throws)
                ≡ done r (aside false w db'))
      go (done r' d) p p' = ground (arith, p, p', logged)
      go throws p p' = cc
      go undefined p p' = cc
      go (elsewhere n) p p' = cc

  -- A call that is not logged changes nothing.
  call-unlogged :
      {r : Reply} {db' : Database}
      → IsQuiet env.now db
      → should_wal op ≡ false
      → execute env trn op db ≡ done r db'
      → db' ≡ db
  unfolding execute
  call-unlogged {r} {db'} q h live =
      go (run env trn op db) (rw h at live) (run-reads env db q trn op h)
    where
      go : (o : Outcome) → o ≡ done r db' → Ends (λ d. d ≡ db) o → db' ≡ db
      go (done r' d) p s = ground (arith, p, s)
      go throws p s = cc
      go undefined p s = cc
      go (elsewhere n) p s = cc

-- The entries that a run adds to the log, and what their replay gives.
abbrev pub Recovers : Env → List WalEntry → Database → Database → List WalEntry → Type 0
Recovers env w db db' log =
    (db'.wal ≡ db.wal ++ log)
    × (do_recover env log (aside false w db) ≡ done unit (aside false w db'))

module _ (env' : Env) (w : List WalEntry) where
  Recovers-cons :
      (x : WalEntry) (log : List WalEntry) {r : Reply} (db db' db'' : Database)
      → db'.wal ≡ db.wal ++ x ∷ []
      → redo_entry env' x (aside false w db) ≡ done r (aside false w db')
      → Recovers env' w db' db'' log
      → Recovers env' w db db'' (x ∷ log)
  unfolding do_recover
  Recovers-cons x log db db' db'' e step (p, s) =
      (p ∙ (ap (λ (l : List WalEntry). l ++ log) e ∙ append_assoc db.wal (x ∷ []) log), rw step s)

  -- The entries that a run adds to the log, redone with expiry disabled.
  replay-Serves :
      {db db' : Database}
      → Serves env'.float_add db db'
      → (log : List WalEntry) × Recovers env' w db db' log
  unfolding do_recover
  replay-Serves {db} idle = ([], (sym (append-nil db.wal), refl))
  replay-Serves {db} {db'} (call {db' = d} env trn op r f q s h rest) =
      let (log, later) = replay-Serves rest in
      elim (Bool-cases (should_wal op)) [
        | inl logged ↦
            let (e, step) = call-logged env env' w trn op db (sym f) q s logged h in
            (
              WalEntry.db_op trn op ∷ log,
              Recovers-cons (WalEntry.db_op trn op) log db d db' e step later,
            )
        | inr unlogged ↦ (
          log,
          subst (λ x. Recovers env' w x db' log) (call-unlogged env env' w trn op db q unlogged h)
              later,
        )
      ]

  -- A server crashes after calls, none of them SET_REMOVE, that returned while no key had expired. It
  -- restarts from the state before them, with any other log in memory. The recovery redoes the
  -- entries that the calls added to the log and returns, in the state that the server crashed in,
  -- with expiry enabled and purged of the keys that have expired by the time of the recovery: at
  -- whatever time that is and whatever numbers are drawn, if doubles are added as before.
  pub recover-Serves :
      {db db' : Database} (enabled : Bool)
      → Serves env'.float_add db db'
      → (log : List WalEntry) × ((db'.wal ≡ db.wal ++ log)
          × (recover env' log (aside enabled w db)
              ≡ done unit (deep_purge env'.now (aside true w db'))))
  unfolding recover expiry_enabled
  recover-Serves enabled calls = let (log, (p, s)) = replay-Serves calls in (log, (p, rw s refl))

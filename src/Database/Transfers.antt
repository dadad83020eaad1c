-- ===== src/Database/Transfers.antt =====
-- What copy_to and move_to of vanity/db/db/general_database.cpp leave behind.
use vanity.Base.{ℤ, ◌≡◌, refl, ◌∙◌, false, not, ◌&&◌, Option, none, some, arith, if◌then◌else◌}
use vanity.Std.Text.{Text, text_eq, eq_iff}
use vanity.Std.Map.{find, contains, find-assign, find-erase}
use vanity.Operations.{Data}
use vanity.Database.{Database, put}
use vanity.Database.Expiry.{clear_expiry, is_expired}
use vanity.Database.Expiry.Laws.{refresh_fresh}
use vanity.Database.General.{get, del, copy_to, copy_found, move_to, move_found, move_time}
use vanity.Database.Writes.{get_lem, get-del}
use vanity.Std.Map.{is_some}
use vanity.Base.{true}
use vanity.Database.General.{move_to_db, move_found_db}

data-move_time : (o : Option ℤ) (to : Text) (db : Database) → (move_time o to db).m_data ≡ db.m_data
unfolding move_time
data-move_time none to db = refl
data-move_time (some t) to db = refl

enabled-move_time :
    (o : Option ℤ) (to : Text) (db : Database)
    → (move_time o to db).m_expiry_enabled ≡ db.m_expiry_enabled
unfolding move_time
enabled-move_time none to db = refl
enabled-move_time (some t) to db = refl

-- The time of the key that is moved from, if it has one, else the one that was there.
abbrev later : Option ℤ → Option ℤ → Option ℤ
later a none = a
later a (some t) = some t

times-move_time :
    (o : Option ℤ) (to j : Text) (db : Database)
    → find j (move_time o to db).m_expiry_times
      ≡ (if text_eq to j then later (find j db.m_expiry_times) o else find j db.m_expiry_times)
unfolding move_time
times-move_time none to j db = ground arith
times-move_time (some t) to j db = find-assign to j t db.m_expiry_times ∙ ground arith

module _ (now : ℤ) (from to : Text) (d : Data) (j : Text) (db : Database) where
  data-move_found :
      text_eq from to ≡ false
      → find j (move_found (some d) from to db).1.m_data
        ≡ (if text_eq from j then none else if text_eq to j then some d else find j db.m_data)
  unfolding move_found del
  data-move_found e = ground (
    arith,
    data-move_time (find from db.m_expiry_times) to (put to d db),
    find-erase from j (move_time (find from db.m_expiry_times) to (put to d db)).m_data,
    find-assign to j d db.m_data,
  )

  times-move_found :
      text_eq from to ≡ false
      → find j (move_found (some d) from to db).1.m_expiry_times ≡ (
          if text_eq from j
          then none
          else if text_eq to j
          then later (find j db.m_expiry_times) (find from db.m_expiry_times)
          else find j db.m_expiry_times)
  unfolding move_found del
  times-move_found e = ground (
    arith,
    times-move_time (find from db.m_expiry_times) to j (put to d db),
    find-erase from j (move_time (find from db.m_expiry_times) to (put to d db)).m_expiry_times,
  )

  enabled-move_found : (move_found (some d) from to db).1.m_expiry_enabled ≡ db.m_expiry_enabled
  unfolding move_found del
  enabled-move_found =
      ground (arith, enabled-move_time (find from db.m_expiry_times) to (put to d db))

  get-move_found :
      text_eq from to ≡ false
      → is_expired now from db ≡ false
      → (get now j (move_found (some d) from to db).1).0 ≡ (
          if text_eq from j
          then none
          else if text_eq to j
          then (if not (contains from db.m_expiry_times) && is_expired now to db
              then none
              else some d)
          else (get now j db).0)
  unfolding is_expired
  get-move_found e fresh = ground (
    arith,
    get_lem now j (move_found (some d) from to db).1,
    get_lem now j db,
    data-move_found e,
    times-move_found e,
    enabled-move_found,
    eq_iff to j,
  )

-- A key that GET finds a value for is not expired, and the database holds the value.
get_fresh :
    (now : ℤ) (k : Text) (db : Database) {d : Data}
    → (get now k db).0 ≡ some d
    → is_expired now k db ≡ false
get_fresh now k db h = ground (arith, get_lem now k db)

get-find :
    (now : ℤ) (k : Text) (db : Database) {d : Data}
    → (get now k db).0 ≡ some d
    → find k db.m_data ≡ some d
get-find now k db h = ground (arith, get_lem now k db)

module _ (now : ℤ) (from to : Text) (d : Data) (j : Text) (db : Database) where
  -- A value that GET finds is moved from its key to another. GET of the first key then answers with
  -- nothing, and GET of a third key with what it answered before. GET of the other key answers with
  -- the value, except where the first key had no expiry time and the other key had one that has
  -- passed: the old time is kept there, and GET answers with nothing.
  pub get-move_to :
      (get now from db).0 ≡ some d
      → text_eq from to ≡ false
      → (get now j (move_to now from to db).1).0 ≡ (
          if text_eq from j
          then none
          else if text_eq to j
          then (if not (contains from db.m_expiry_times) && is_expired now to db
              then none
              else some d)
          else (get now j db).0)
  unfolding move_to
  get-move_to h e =
      rw (refresh_fresh now from db (get_fresh now from db h), get-find now from db h)
        (get-move_found now from to d j db e (get_fresh now from db h))

  -- A value that GET finds is copied from its key to another. GET of the other key then answers with the
  -- value, even if that key had been due to expire, and GET of any key but that one with what it
  -- answered before.
  pub get-copy_to :
      (get now from db).0 ≡ some d
      → text_eq from to ≡ false
      → (get now j (copy_to now from to db).1).0
        ≡ (if text_eq to j then some d else (get now j db).0)
  unfolding copy_to copy_found is_expired
  get-copy_to h e =
      rw (refresh_fresh now from db (get_fresh now from db h), get-find now from db h)
        (ground (
          arith,
          get_lem now j (clear_expiry to (put to d db)),
          get_lem now j db,
          find-assign to j d db.m_data,
          find-erase to j db.m_expiry_times,
        ))

module _ (now : ℤ) (key j : Text) (d : Data) (db to : Database) where
  get-move_time :
      (time : Option ℤ)
      → db.m_expiry_enabled ≡ true
      → to.m_expiry_enabled ≡ true
      → find key db.m_expiry_times ≡ time
      → is_expired now key db ≡ false
      → (get now j (move_time time key (put key d to))).0 ≡ (
          if text_eq key j
          then (if not (is_some time) && is_expired now key to then none else some d)
          else (get now j to).0)
  unfolding is_expired
  get-move_time time on on' e fresh = ground (
    arith,
    get_lem now j (move_time time key (put key d to)),
    get_lem now j to,
    data-move_time time key (put key d to),
    times-move_time time key j (put key d to),
    enabled-move_time time key (put key d to),
    find-assign key j d to.m_data,
    eq_iff key j,
  )

  -- A value that GET finds is moved to another database, where expiry is enabled in both. GET of the key
  -- then answers with nothing in the first database, and in the other one with the value, except
  -- where the key had no expiry time in the first and one that has passed in the other. GET of any
  -- other key answers with what it answered before, in both.
  pub get-move_to_db :
      db.m_expiry_enabled ≡ true
      → to.m_expiry_enabled ≡ true
      → (get now key db).0 ≡ some d
      → ((get now j (move_to_db now key db to).1).0
          ≡ (if text_eq key j then none else (get now j db).0))
        × ((get now j (move_to_db now key db to).2).0 ≡ (
            if text_eq key j
            then (if not (contains key db.m_expiry_times) && is_expired now key to
                then none
                else some d)
            else (get now j to).0))
  unfolding move_to_db move_found_db
  get-move_to_db on on' h =
      rw (refresh_fresh now key db (get_fresh now key db h), get-find now key db h)
        (
          get-del now key db j,
          get-move_time (find key db.m_expiry_times) on on' refl (get_fresh now key db h),
        )

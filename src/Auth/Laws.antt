-- ===== src/Auth/Laws.antt =====
-- vanity/auth/auth_server.cpp: what the requests on users do to each other.
use vanity.Base.{
  ℕ, ◌+◌, ◌≡◌, refl, Result, ok, err, Bool, true, false, Option, none, some, List, [], ltb,
  if◌then◌else◌, length, arith,
}
use vanity.Std.Text.{Text, codes, text_eq}
use vanity.Std.Map.{Map, find, assign, contains, find-assign, find-assign_self, find-erase}
use vanity.Request.Objects.{ClientAuth}
use vanity.Request.Serving.{Outcome, returned, thrown}
use vanity.Session.{UserData, session_set_auth, session_user_data, Changed, changed, runtime_error}
use vanity.Auth.{
  Bcrypt, AuthInfo, AuthState, agree, refuse, set_login, persist_logins, make_hash, check_hash,
  request_add_user, edit_login, request_edit_user, request_del_user, log_in, request_auth,
  request_change_password, with_name, with_username, with_hash, fail,
}

-- The state that a request leaves, whether it returns or throws.
abbrev pub left_by : {S : Type 0} → Outcome S → S
left_by (returned s rs) = s
left_by (thrown e s rs) = s

-- A login is that of a user or an admin.
abbrev pub is_level : ClientAuth → Bool
is_level ClientAuth.user = true
is_level ClientAuth.admin = true
is_level _ = false

abbrev pub HasLevels : AuthState → Type 0
HasLevels s =
    (k : Text) (info : AuthInfo) → find k s.m_logins ≡ some info → is_level info.auth ≡ true

set_login-HasLevels :
    (username : Text) (info : AuthInfo) (s : AuthState)
    → is_level info.auth ≡ true
    → HasLevels s
    → HasLevels (persist_logins (set_login username info s))
unfolding persist_logins
set_login-HasLevels username info s hi h k other e =
    ground (arith, find-assign username k info s.m_logins, h k other)

erase-HasLevels :
    (username : Text) (s : AuthState)
    → HasLevels s
    → HasLevels (persist_logins (record s { m_logins = vanity.Std.Map.erase username s.m_logins }))
unfolding persist_logins
erase-HasLevels username s h k other e = ground (arith, find-erase username k s.m_logins, h k other)

-- The logins that a request leaves are of users and admins.
pub record Kept (o : Outcome AuthState) : Type 0 where
  pub kept : HasLevels (left_by o)

if-Kept : (b : Bool) (x y : Outcome AuthState) → Kept x → Kept y → Kept (if b then x else y)
if-Kept true x y h k = h
if-Kept false x y h k = k

with_username-Kept :
    (u : Option UserData) (s : AuthState) (f : Text → Outcome AuthState)
    → Kept (returned s [])
    → ((n : Text) → Kept (f n))
    → Kept (with_username u s f)
with_username-Kept none s f h k = record { kept = h.kept }
with_username-Kept (some u) s f h k = k u.username

module _ (bcrypt : Bcrypt) (s : AuthState) (h : HasLevels s) where
  unchanged : (rs : List Text) → Kept (returned s rs)
  unchanged rs = record { kept = h }

  hashed-Kept :
      (r : Result Text Text) (f : Text → AuthState → Outcome AuthState)
      → ((x : Text) → Kept (f x (record s { salts = s.salts + 1 })))
      → Kept (elim r [
        | err e ↦ fail (bcrypt.hash_error e) (record s { salts = s.salts + 1 })
        | ok x ↦ f x (record s { salts = s.salts + 1 })
      ])
  hashed-Kept (err e) f k = record { kept = h }
  hashed-Kept (ok x) f k = k x

  with_hash-Kept :
      (password : Text) (f : Text → AuthState → Outcome AuthState)
      → ((x : Text) → Kept (f x (record s { salts = s.salts + 1 })))
      → Kept (with_hash bcrypt password s f)
  with_hash-Kept password f k = hashed-Kept (make_hash bcrypt password s.salts) f k

  login-Kept :
      (username : Text) (info : AuthInfo) (n : ℕ)
      → is_level info.auth ≡ true
      → Kept (agree (persist_logins (set_login username info (record s { salts = n }))))
  login-Kept username info n hi = record {
    kept = set_login-HasLevels username info (record s { salts = n }) hi h;
  }

  pub request_add_user-Kept :
      (username password : Text) → Kept (request_add_user bcrypt username password s)
  unfolding request_add_user
  request_add_user-Kept username password =
      if-Kept (ltb (length username) 4) (refuse (codes "username too short") s) _ (unchanged _) (
        if-Kept (ltb (length password) 4) (refuse (codes "password too short") s) _ (unchanged _) (
          if-Kept (contains username s.m_logins) (refuse (codes "user already exists") s) _
            (unchanged _)
            (with_hash-Kept password
              (λ x s1. agree (
                persist_logins
                  (set_login username (record { hash = x; auth = ClientAuth.user }) s1)))
              (λ x.
                login-Kept username (record { hash = x; auth = ClientAuth.user }) (s.salts + 1)
                  refl))))

  edit_login-Kept :
      (username : Text) (a : ClientAuth) (info : AuthInfo)
      → is_level a ≡ true
      → Kept (edit_login bcrypt username a info s)
  unfolding edit_login
  edit_login-Kept username a info ha =
      let t = login-Kept username (record info { auth = a }) s.salts ha in
      with_username-Kept (session_user_data s.session) _ _ (record { kept = t.kept }) (λ n. t)

  edited-Kept :
      (username : Text) (a : ClientAuth) (o : Option AuthInfo)
      → Kept (elim o [
        | none ↦ refuse (codes "user does not exist") s
        | some info ↦ elim a [
          | ClientAuth.user ↦ edit_login bcrypt username ClientAuth.user info s
          | ClientAuth.admin ↦ edit_login bcrypt username ClientAuth.admin info s
          | _ ↦ refuse (codes "invalid auth level") s
        ]
      ])
  edited-Kept username a none = unchanged _
  edited-Kept username ClientAuth.user (some info) =
      edit_login-Kept username ClientAuth.user info refl
  edited-Kept username ClientAuth.admin (some info) =
      edit_login-Kept username ClientAuth.admin info refl
  edited-Kept username _ (some info) = unchanged _

  pub request_edit_user-Kept :
      (username : Text) (a : ClientAuth) → Kept (request_edit_user bcrypt username a s)
  unfolding request_edit_user
  request_edit_user-Kept username a = edited-Kept username a (find username s.m_logins)

  erased-Kept :
      (username n : Text)
      → Kept (
          if text_eq username n
          then refuse (codes "cannot delete self") s
          else agree
              (persist_logins (record s { m_logins = vanity.Std.Map.erase username s.m_logins })))
  erased-Kept username n =
      if-Kept (text_eq username n) (refuse (codes "cannot delete self") s) _ (unchanged _)
        (record { kept = erase-HasLevels username s h })

  pub request_del_user-Kept : (username : Text) → Kept (request_del_user bcrypt username s)
  unfolding request_del_user
  request_del_user-Kept username =
      if-Kept (contains username s.m_logins) _ (refuse (codes "user does not exist") s)
        (with_username-Kept (session_user_data s.session) s _ (unchanged []) (erased-Kept username))
        (unchanged _)

  changed-Kept :
      (name password : Text) (o : Option AuthInfo)
      → find name s.m_logins ≡ o
      → Kept (elim o [
        | none ↦ refuse (codes "user does not exist") s
        | some info ↦
            with_hash bcrypt password s
              (λ x s1. agree (persist_logins (set_login name (record info { hash = x }) s1)))
      ])
  changed-Kept name password none e = unchanged _
  changed-Kept name password (some info) e =
      with_hash-Kept password
        (λ x s1. agree (persist_logins (set_login name (record info { hash = x }) s1)))
        (λ x. login-Kept name (record info { hash = x }) (s.salts + 1) (h name info e))

  pub request_change_password-Kept :
      (password : Text) → Kept (request_change_password bcrypt password s)
  unfolding request_change_password
  request_change_password-Kept password =
      if-Kept (ltb (length password) 4) (refuse (codes "password too short") s) _ (unchanged _) (
        with_username-Kept (session_user_data s.session) s _ (unchanged [])
          (λ n. changed-Kept n password (find n s.m_logins) refl))

  log_in-Kept : (username : Text) (info : AuthInfo) → Kept (log_in bcrypt username info s)
  unfolding log_in
  log_in-Kept username info = step (session_set_auth info.auth s.session)
    where
      step :
          (c : Changed)
          → Kept (elim c [
            | runtime_error e ↦ fail e s
            | changed t ↦ agree (record s { session = with_name username t })
          ])
      step (runtime_error e) = record { kept = h }
      step (changed t) = record { kept = h }

  checked-Kept :
      (username : Text) (info : AuthInfo) (r : Result Text Bool)
      → Kept (elim r [
        | err e ↦ fail (bcrypt.hash_error e) s
        | ok same ↦
            if same then log_in bcrypt username info s else refuse (codes "incorrect password") s
      ])
  checked-Kept username info (err e) = record { kept = h }
  checked-Kept username info (ok b) =
      if-Kept b (log_in bcrypt username info s) _ (log_in-Kept username info) (unchanged _)

  authenticated-Kept :
      (username password : Text) (o : Option AuthInfo)
      → Kept (elim o [
        | none ↦ refuse (codes "user does not exist") s
        | some info ↦ elim (check_hash bcrypt password info.hash) [
          | err e ↦ fail (bcrypt.hash_error e) s
          | ok same ↦
              if same then log_in bcrypt username info s else refuse (codes "incorrect password") s
        ]
      ])
  authenticated-Kept username password none = unchanged _
  authenticated-Kept username password (some info) =
      checked-Kept username info (check_hash bcrypt password info.hash)

  pub request_auth-Kept :
      (username password : Text) → Kept (request_auth bcrypt username password s)
  unfolding request_auth
  request_auth-Kept username password =
      if-Kept (ltb (length password) 4) (refuse (codes "password too short") s) _ (unchanged _)
        (authenticated-Kept username password (find username s.m_logins))

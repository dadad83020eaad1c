-- ===== src/Auth.antt =====
-- vanity/auth/auth_server.cpp and hasher.h there: the users, their passwords and their levels. The locks
-- of locked_auth_server.cpp make a request one step.
pub mod Laws
pub mod Logins
use vanity.Base.{
  ℕ, ◌+◌, Result, ok, err, Bool, true, false, Option, none, some, List, [], ◌∷◌, ltb, if◌then◌else◌,
  length,
}
use vanity.Std.Text.{Text, codes, text_eq}
use vanity.Std.Map
use vanity.Std.Map.{Map, find, assign, contains}
use vanity.Request.Objects.{ClientAuth}
use vanity.Request.Serving.{Outcome, returned, thrown, Exception, std_exception}
use vanity.Response.{
  Status, error_response, value_response, empty_response, serialize_auth, serialize_string,
  c_string,
}
use vanity.Session.{
  Session, UserData, SessionData, user_data, Changed, changed, runtime_error, session_set_auth,
  session_user_data,
}

-- What the code takes from outside the program: the bcrypt library, and what its exceptions say.
pub record Bcrypt : Type 0 where
  pub gensalt : ℕ → Option Text
  pub hashpw : Text → Text → Option Text
  pub hash_error : Text → Text

-- auth_info
pub record AuthInfo : Type 0 where
  pub hash : Text
  pub auth : ClientAuth

-- The logins, what the file of the users holds (`none`: no file is configured, `some none`: it is not
-- there yet), how many salts were drawn, and the session of the client that asks.
pub record AuthState : Type 0 where
  pub m_logins : Map AuthInfo
  pub users_db : Option (Option (Map AuthInfo))
  pub salts : ℕ
  pub session : Session

abbrev pub m_min_username_length : ℕ
m_min_username_length = 4

abbrev pub m_min_password_length : ℕ
m_min_password_length = 4

-- persist_logins
unfoldable pub persist_logins : AuthState → AuthState
persist_logins s = record s {
  users_db = elim s.users_db [ none ↦ none | some f ↦ some (some s.m_logins) ];
}

abbrev pub refuse : Text → AuthState → Outcome AuthState
refuse e s = returned s (error_response Status.error e ∷ [])

abbrev pub agree : AuthState → Outcome AuthState
agree s = returned s (empty_response Status.ok ∷ [])

abbrev pub fail : Text → AuthState → Outcome AuthState
fail e s = thrown (std_exception e) s []

-- m_logins[username] = info, in memory
abbrev pub set_login : Text → AuthInfo → AuthState → AuthState
set_login username info s = record s { m_logins = assign username info s.m_logins }

-- What goes on with the name of the user, or throws for a client that is no user.
abbrev pub with_username :
    Option UserData → AuthState → (Text → Outcome AuthState) → Outcome AuthState
with_username none s f = fail (codes "client is not a user") s
with_username (some u) s f = f u.username

abbrev hashed : Option Text → Result Text Text
hashed none = err (codes "Could not hash password")
hashed (some h) = ok h

abbrev named : Text → SessionData → SessionData
named name (user_data u) = user_data (record u { username = name })
named name d = d

abbrev pub with_name : Text → Session → Session
with_name name s = record s { session_data = named name s.session_data }

module _ (bcrypt : Bcrypt) where
  -- Hasher::make_hash: a salt is drawn, and the password is hashed as a C string; or a HashError.
  unfoldable pub make_hash : Text → ℕ → Result Text Text
  make_hash password salts = elim (bcrypt.gensalt salts) [
    | none ↦ err (codes "Could not generate salt")
    | some salt ↦ hashed (bcrypt.hashpw (c_string password) salt)
  ]

  -- Hasher::check_hash
  unfoldable pub check_hash : Text → Text → Result Text Bool
  check_hash password hash = elim (bcrypt.hashpw (c_string password) hash) [
    | none ↦ err (codes "Could not check password hash")
    | some h ↦ ok (text_eq hash h)
  ]

  -- What goes on with the hash of a password, for which a salt is drawn, or throws.
  abbrev pub with_hash :
      Text → AuthState → (Text → AuthState → Outcome AuthState) → Outcome AuthState
  with_hash password s f =
      let s1 = record s { salts = s.salts + 1 } in
      elim (make_hash password s.salts) [ err e ↦ fail (bcrypt.hash_error e) s1 | ok h ↦ f h s1 ]

  unfoldable pub request_add_user : Text → Text → AuthState → Outcome AuthState
  request_add_user username password s =
      if ltb (length username) m_min_username_length
      then refuse (codes "username too short") s
      else if ltb (length password) m_min_password_length
      then refuse (codes "password too short") s
      else if contains username s.m_logins
      then refuse (codes "user already exists") s
      else with_hash password s (λ h s1.
        agree
          (persist_logins (set_login username (record { hash = h; auth = ClientAuth.user }) s1)))

  -- The name of the user that asks is looked up for the log, when the change is made.
  unfoldable pub edit_login : Text → ClientAuth → AuthInfo → AuthState → Outcome AuthState
  edit_login username auth_level info s =
      let s1 = persist_logins (set_login username (record info { auth = auth_level }) s) in
      with_username (session_user_data s.session) s1 (λ name. agree s1)

  unfoldable pub request_edit_user : Text → ClientAuth → AuthState → Outcome AuthState
  request_edit_user username auth_level s = elim (find username s.m_logins) [
    | none ↦ refuse (codes "user does not exist") s
    | some info ↦ elim auth_level [
      | ClientAuth.user ↦ edit_login username ClientAuth.user info s
      | ClientAuth.admin ↦ edit_login username ClientAuth.admin info s
      | _ ↦ refuse (codes "invalid auth level") s
    ]
  ]

  unfoldable pub request_del_user : Text → AuthState → Outcome AuthState
  request_del_user username s =
      if contains username s.m_logins
      then with_username (session_user_data s.session) s (λ name.
        if text_eq username name
        then refuse (codes "cannot delete self") s
        else agree
            (persist_logins (record s { m_logins = vanity.Std.Map.erase username s.m_logins })))
      else refuse (codes "user does not exist") s

  -- session_set_auth, and then session_username(client) = username
  unfoldable pub log_in : Text → AuthInfo → AuthState → Outcome AuthState
  log_in username info s = elim (session_set_auth info.auth s.session) [
    | runtime_error e ↦ fail e s
    | changed session1 ↦ agree (record s { session = with_name username session1 })
  ]

  unfoldable pub request_auth : Text → Text → AuthState → Outcome AuthState
  request_auth username password s =
      if ltb (length password) m_min_password_length
      then refuse (codes "password too short") s
      else elim (find username s.m_logins) [
        | none ↦ refuse (codes "user does not exist") s
        | some info ↦ elim (check_hash password info.hash) [
          | err e ↦ fail (bcrypt.hash_error e) s
          | ok same ↦ if same then log_in username info s else refuse (codes "incorrect password") s
        ]
      ]

  unfoldable pub request_change_password : Text → AuthState → Outcome AuthState
  request_change_password new_password s =
      if ltb (length new_password) m_min_password_length
      then refuse (codes "password too short") s
      else with_username (session_user_data s.session) s (λ name. elim (find name s.m_logins) [
        | none ↦ refuse (codes "user does not exist") s
        | some info ↦
            with_hash new_password s
              (λ h s1. agree (persist_logins (set_login name (record info { hash = h }) s1)))
      ])

  unfoldable pub request_auth_level : AuthState → Outcome AuthState
  request_auth_level s = returned s (value_response Status.ok (serialize_auth s.session.auth) ∷ [])

  unfoldable pub request_username : AuthState → Outcome AuthState
  request_username s =
      with_username (session_user_data s.session) s
        (λ name. returned s (value_response Status.ok (serialize_string name) ∷ []))

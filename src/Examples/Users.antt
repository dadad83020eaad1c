-- ===== src/Examples/Users.antt =====
-- The default user, and one who is added.
use vanity.Base.{◌≡◌, refl, some, none, [], ◌∷◌, ◌++◌, List, arith}
use vanity.Std.Text.{codes, text_eq}
use vanity.Std.Map.{find}
use vanity.Request.Objects.{ClientAuth}
use vanity.Response.{c_string}
use vanity.Session.{Session, monostate}
use vanity.Auth.{Bcrypt, AuthState, agree, request_add_user, request_auth}
use vanity.Auth.Laws.{HasLevels}
use vanity.Auth.Logins.{
  UserRequest, after_requests, logged_in, after_requests-HasLevels, request_auth-c_string,
  request_auth-request_add_user,
}

-- A hash that keeps the password, which takes any hash of it as a salt.
abbrev bcrypt : Bcrypt
bcrypt = record {
  gensalt = λ n. some (n ∷ []);
  hashpw = λ password salt. some (36 ∷ password);
  hash_error = λ e. e;
}

abbrev nobody : Session
nobody = record { session_data = monostate; auth = ClientAuth.unknown }

-- The user vanity with its default password.
abbrev default_state : AuthState
default_state = record {
  m_logins = (codes "vanity", record { hash = codes "$vanity"; auth = ClientAuth.admin }) ∷ [];
  users_db = none;
  salts = 0;
  session = nobody;
}

default-HasLevels : HasLevels default_state
unfolding find
default-HasLevels k info e = ground arith

abbrev requests : List (Session × UserRequest)
requests =
    (nobody, UserRequest.auth (codes "vanity") (codes "vanity"))
    ∷ (logged_in (codes "vanity"), UserRequest.add_user (codes "kate") (codes "1234"))
    ∷ (logged_in (codes "vanity"), UserRequest.edit_user (codes "kate") ClientAuth.admin)
    ∷ (logged_in (codes "kate"), UserRequest.del_user (codes "vanity"))
    ∷ []

levels_example : HasLevels (after_requests bcrypt requests default_state)
levels_example = after_requests-HasLevels bcrypt requests default_state default-HasLevels

zero_byte_example :
    request_auth bcrypt (codes "vanity") (codes "van" ++ 0 ∷ codes "ity") default_state
    ≡ request_auth bcrypt (codes "vanity") (codes "van" ++ 0 ∷ codes "x") default_state
unfolding c_string
zero_byte_example =
    request_auth-c_string bcrypt (codes "vanity") (codes "van" ++ 0 ∷ codes "ity")
      (codes "van" ++ 0 ∷ codes "x") default_state (omega arith) (omega arith) refl

added_example :
    (t : AuthState) × (request_add_user bcrypt (codes "kate") (codes "1234") default_state
      ≡ agree t)
    × ((client : Session)
        → request_auth bcrypt (codes "kate") (codes "1234") (record t { session = client })
          ≡ agree (record t { session = logged_in (codes "kate") }))
unfolding c_string find text_eq
added_example =
    request_auth-request_add_user bcrypt (codes "kate") (codes "1234") (0 ∷ []) (codes "$1234")
      default_state (omega arith) (omega arith) refl refl refl refl

-- ===== src/Auth/Logins.antt =====
-- vanity/auth/auth_server.cpp: sequences of requests on users, from any client.
use vanity.Base.{◌+◌, ◌≤◌, ◌≡◌, none, some, List, [], ◌∷◌, length, arith}
use vanity.Std.Text.{Text, eq_refl}
use vanity.Std.Map.{find, find-assign_self}
use vanity.Request.Objects.{ClientAuth}
use vanity.Request.Serving.{Outcome}
use vanity.Response.{c_string}
use vanity.Session.{Session, user_data, session_set_auth, new_user}
use vanity.Auth.{
  Bcrypt, AuthInfo, AuthState, agree, set_login, persist_logins, make_hash, check_hash,
  request_add_user, request_edit_user, request_del_user, log_in, request_auth,
  request_change_password,
}
use vanity.Auth.Laws.{
  left_by, HasLevels, request_add_user-Kept, request_edit_user-Kept, request_del_user-Kept,
  request_auth-Kept, request_change_password-Kept,
}

-- A request on users.
pub data UserRequest : Type 0 where
  add_user auth : Text → Text → UserRequest
  edit_user : Text → ClientAuth → UserRequest
  del_user change_password : Text → UserRequest

abbrev pub outcome : Bcrypt → UserRequest → AuthState → Outcome AuthState
outcome bcrypt (add_user u p) s = request_add_user bcrypt u p s
outcome bcrypt (auth u p) s = request_auth bcrypt u p s
outcome bcrypt (edit_user u a) s = request_edit_user bcrypt u a s
outcome bcrypt (del_user u) s = request_del_user bcrypt u s
outcome bcrypt (change_password p) s = request_change_password bcrypt p s

-- The state after requests, each of which may come from another client, with its own session.
abbrev pub after_requests : Bcrypt → List (Session × UserRequest) → AuthState → AuthState
after_requests bcrypt [] s = s
after_requests bcrypt ((c, r) ∷ l) s =
    after_requests bcrypt l (left_by (outcome bcrypt r (record s { session = c })))

-- The session of a user who has just logged in.
abbrev pub logged_in : Text → Session
logged_in username = record {
  session_data = user_data (record new_user { username = username });
  auth = ClientAuth.user;
}

module _ (bcrypt : Bcrypt) where
  outcome-HasLevels :
      (r : UserRequest) (s : AuthState) → HasLevels s → HasLevels (left_by (outcome bcrypt r s))
  outcome-HasLevels (add_user u p) s h = (request_add_user-Kept bcrypt s h u p).kept
  outcome-HasLevels (auth u p) s h = (request_auth-Kept bcrypt s h u p).kept
  outcome-HasLevels (edit_user u a) s h = (request_edit_user-Kept bcrypt s h u a).kept
  outcome-HasLevels (del_user u) s h = (request_del_user-Kept bcrypt s h u).kept
  outcome-HasLevels (change_password p) s h = (request_change_password-Kept bcrypt s h p).kept

  -- Whatever clients ask for, in whatever order, and whether a request is answered or throws: if every
  -- login is that of a user or an admin before, it is so afterwards.
  pub after_requests-HasLevels :
      (l : List (Session × UserRequest)) (s : AuthState)
      → HasLevels s
      → HasLevels (after_requests bcrypt l s)
  after_requests-HasLevels [] s h = h
  after_requests-HasLevels ((c, r) ∷ l) s h =
      after_requests-HasLevels l _ (outcome-HasLevels r (record s { session = c }) h)

  -- Passwords of at least four bytes that are the same up to their first zero byte are the same for
  -- AUTH.
  pub request_auth-c_string :
      (username password other : Text) (s : AuthState)
      → 4 ≤ length password
      → 4 ≤ length other
      → c_string password ≡ c_string other
      → request_auth bcrypt username password s ≡ request_auth bcrypt username other s
  unfolding request_auth check_hash
  request_auth-c_string username password other s h1 h2 e = ground (arith, e)

  -- The documented behaviour of bcrypt: a hash that is taken as the salt gives the same hash. Given it
  -- for one password, and that a salt is drawn and the password is hashed: ADD_USER of a name and a
  -- password of at least four bytes, for a name that is not there, succeeds, and AUTH with both then
  -- succeeds for any client and makes it a user with that name.
  pub request_auth-request_add_user :
      (username password salt h : Text) (s : AuthState)
      → 4 ≤ length username
      → 4 ≤ length password
      → find username s.m_logins ≡ none
      → bcrypt.gensalt s.salts ≡ some salt
      → bcrypt.hashpw (c_string password) salt ≡ some h
      → bcrypt.hashpw (c_string password) h ≡ some h
      → (t : AuthState) × (request_add_user bcrypt username password s ≡ agree t)
        × ((client : Session)
            → request_auth bcrypt username password (record t { session = client })
              ≡ agree (record t { session = logged_in username }))
  unfolding request_add_user request_auth make_hash check_hash persist_logins log_in
      session_set_auth
  request_auth-request_add_user username password salt h s h1 h2 absent hs hp hh =
      let info : AuthInfo = record { hash = h; auth = ClientAuth.user } in
      let t = persist_logins (set_login username info (record s { salts = s.salts + 1 })) in
      (
        t,
        ground (arith, hs, hp),
        λ client. ground (arith, find-assign_self username info s.m_logins, hh, eq_refl h),
      )

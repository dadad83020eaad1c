-- ===== src/Session.antt =====
-- vanity/session_server.cpp, with session_info and user_data_t of vanity/client/session_info.h: what the
-- server knows of a client.
use vanity.Base.{ℕ, Bool, true, false, Option, none, some, []}
use vanity.Std.Text.{Text, codes}
use vanity.Std.Set.{Set}
use vanity.Request.Objects.{ClientAuth}

-- user_data_t
pub record UserData : Type 0 where
  pub channels : Set
  pub username : Text
  pub database : ℕ
  pub trn_id : ℕ

-- What peer_data_t holds besides times and scores.
pub record PeerData : Type 0 where
  pub addr : Text
  pub id : Option Text

-- the variant session_data
pub data SessionData : Type 0 where
  monostate : SessionData
  user_data : UserData → SessionData
  peer_data : PeerData → SessionData

pub record Session : Type 0 where
  pub session_data : SessionData
  pub auth : ClientAuth

-- user_data_t{}
unfoldable pub new_user : UserData
new_user = record { channels = []; username = []; database = 0; trn_id = 0 }

-- How a change of a session ends: done, or with a std::runtime_error.
pub data Changed : Type 0 where
  changed : Session → Changed
  runtime_error : Text → Changed

-- session_set_auth(client, auth)
unfoldable pub session_set_auth : ClientAuth → Session → Changed
session_set_auth ClientAuth.user s =
    changed (record { session_data = user_data new_user; auth = ClientAuth.user })
session_set_auth ClientAuth.admin s =
    changed (record { session_data = user_data new_user; auth = ClientAuth.admin })
session_set_auth ClientAuth.peer s = runtime_error (codes "address required to set auth to PEER")
session_set_auth ClientAuth.unknown s = runtime_error (codes "cannot set auth to UNKNOWN")

-- session_set_auth(client, auth, addr, id)
unfoldable pub session_set_peer : ClientAuth → Text → Option Text → Session → Changed
session_set_peer ClientAuth.peer addr id s =
    changed (record {
      session_data = peer_data (record { addr = addr; id = id });
      auth = ClientAuth.peer;
    })
session_set_peer auth addr id s = runtime_error (codes "can only set to PEER with an address")

unfoldable pub session_is_peer : Session → Bool
session_is_peer s = elim s.auth [ ClientAuth.peer ↦ true | _ ↦ false ]

unfoldable pub session_is_user : Session → Bool
session_is_user s = elim s.auth [ ClientAuth.user ↦ true | ClientAuth.admin ↦ true | _ ↦ false ]

-- `none`: std::runtime_error("client is not a user")
unfoldable pub session_user_data : Session → Option UserData
session_user_data s = elim s.session_data [ user_data u ↦ some u | _ ↦ none ]

-- `none`: std::runtime_error("client is not a peer")
unfoldable pub session_peer_data : Session → Option PeerData
session_peer_data s = elim s.session_data [ peer_data p ↦ some p | _ ↦ none ]

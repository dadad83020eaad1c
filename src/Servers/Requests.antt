-- ===== src/Servers/Requests.antt =====
-- vanity/db/servers: the requests on the database of a client.
use vanity.Base.{Option, none, some}
use vanity.Request.Call.{Call}
use vanity.Servers.{Doubles, Plan}
use vanity.Servers.Values.{general_plan, expiry_plan, primitive_plan}
use vanity.Servers.Containers.{list_plan, set_plan, hash_plan}

infixr 5 ◌or◌
abbrev pub ◌or◌ : Option Plan → Option Plan → Option Plan
some p or q = some p
none or q = q

-- The plan of a request on one database; `none` for the others.
unfoldable pub plan : Doubles → Call → Option Plan
plan doubles c =
    general_plan doubles c
    or expiry_plan doubles c
    or primitive_plan doubles c
    or list_plan c
    or set_plan c
    or hash_plan c

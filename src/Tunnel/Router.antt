-- ===== src/Tunnel/Router.antt =====
-- server/app/tunnel/router.py: which base URL a request goes to. What `urlparse` and `parse_qs`
-- find in a path is an argument of the routing, and so is the discovery of Open WebUI.
pub mod Targets
use lem.Base.{
  not, ◌&&◌, Option, none, some, List, [], ◌∷◌, ◌==◌, seq_eq, if◌then◌else◌, Result, ok, err, ◌>>=◌,
}
use lem.Base.Dict.{Dict, lookup}
use lem.Text.{Text}
use lem.Text.Methods.{lit, rstrip, truthy}

-- `urllib.parse`: the parts of a URL that the program reads, and the query's parameters, each
-- with its values in order. `urlparse` raises ValueError for some texts.
pub record Url : Type 0 where
  pub path : Text
  pub query : Text

pub record Urllib : Type 0 where
  pub urlparse : Text → Result Url
  pub parse_qs : Text → Dict Text (List Text)

pub record RequestRouter : Type 0 where
  pub local_server_url : Text
  pub get_client_url : Text → Option Text

-- `_default_client_url_resolver`
abbrev pub default_client_url_resolver : Text → Option Text
default_client_url_resolver client_id = none

-- `RequestRouter.__init__`
unfoldable pub init : Text → Option (Text → Option Text) → RequestRouter
init local_server_url resolver = record {
  local_server_url = rstrip b'/' local_server_url;
  get_client_url = elim resolver [ none ↦ default_client_url_resolver | some f ↦ f ];
}

abbrev pub or_empty : Option (List Text) → List Text
or_empty none = []
or_empty (some l) = l

-- `if client_url: return client_url`, and the local server where there is none
unfoldable pub or_local : RequestRouter → Option Text → Text
or_local router none = router.local_server_url
or_local router (some url) = if truthy url then url else router.local_server_url

unfoldable pub pick : RequestRouter → List Text → Text
unfolding or_local
pick router [] = router.local_server_url
pick router (client_id ∷ _) = or_local router (router.get_client_url client_id)

-- `RequestRouter.route`
unfoldable pub route : Urllib → RequestRouter → Text → Result Text
unfolding pick
route lib router path = do
  parsed ← lib.urlparse path
  let query_params = lib.parse_qs parsed.query
  ok (pick router (or_empty (lookup (lit "client") query_params)))

-- `get_client_url` of `create_router_with_client_discovery`, on what `get_openwebui_url()` gave
unfoldable pub discovered : Result Text → Option Text
discovered (ok url) =
    if truthy url && not (url == lit "http://127.0.0.1:3000") then some url else none
discovered (err e) = none

unfoldable pub discover : Result Text → Text → Option Text
unfolding discovered
discover openwebui client_id = if client_id == lit "openwebui" then discovered openwebui else none

unfoldable pub create_router_with_client_discovery : Result Text → Text → RequestRouter
unfolding init discover
create_router_with_client_discovery openwebui local_server_url =
    init local_server_url (some (discover openwebui))

-- ===== src/Server.antt =====
-- src/server.cc: the locations that a server makes of its configuration, and its count of
-- connections. The constructor is about any `init` functions; `inits` are the program's.
pub mod Registered
pub mod Connections
pub mod Accepting
pub mod Measured
pub mod Upstream
mod Tests
use web_server_development.Prelude.{
  ℕ, suc, ◌-◌, Bool, true, false, List, [], ◌∷◌, Option, none, some, Result, ok, throws, undefined,
  ◌>>=◌, ◌||◌, ltb, if◌then◌else◌,
}
use web_server_development.Text.{Bytes, codes, equal, is_empty}
use web_server_development.StdMap.{insert}
use web_server_development.Request.{Request}
use web_server_development.Response.{Response}
use web_server_development.World.{World}
use web_server_development.Config.{
  NginxConfig, Location, get_value_from_statement, get_location_result,
}
use web_server_development.Handlers.Echo.{handle_echo}
use web_server_development.Handlers.Health.{handle_health, handle_not_found}
use web_server_development.Handlers.Static.{make_static, handle_static}
use web_server_development.Handlers.Proxy.{make_proxy, handle_proxy}
use web_server_development.Handlers.Proxy.Exchange.{Network}
use web_server_development.Handlers.Status.{handle_status}
use web_server_development.Session.Routing.{RequestHandler, Locations}

-- The classes of handlers
pub data HandlerKind : Type 0 where
  echo static status not_found proxy health : HandlerKind

-- The class that the constructor of the server takes for a name
unfoldable pub kind_of : Bytes → Option HandlerKind
unfolding equal
kind_of name =
    if equal name (codes "EchoHandler")
    then some echo
    else if equal name (codes "StaticHandler")
    then some static
    else if equal name (codes "StatusHandler")
    then some status
    else if equal name (codes "NotFoundHandler")
    then some not_found
    else if equal name (codes "ProxyHandler")
    then some proxy
    else if equal name (codes "HealthHandler")
    then some health
    else none

-- The `init` functions
abbrev pub Inits : Type 0
Inits = HandlerKind → Bytes → NginxConfig → Result RequestHandler

abbrev pub echo_handler : RequestHandler
echo_handler = record {
  handle_request = λ w q. ok (handle_echo w q);
  handler_name = codes "EchoHandler";
}

abbrev pub health_handler : RequestHandler
health_handler = record {
  handle_request = λ w q. ok (handle_health w q);
  handler_name = codes "HealthHandler";
}

abbrev pub not_found_handler : RequestHandler
not_found_handler = record {
  handle_request = λ w q. ok (handle_not_found w q);
  handler_name = codes "NotFoundHandler";
}

-- `static_request_handler::init`
unfoldable pub init_static : Bytes → NginxConfig → Result RequestHandler
unfolding get_value_from_statement make_static handle_static
init_static uri config = do
  value ← get_value_from_statement (codes "root") config
  let made = do
    h ← make_static config uri
    ok (record {
      handle_request = λ w q. handle_static w h q;
      handler_name = codes "StaticHandler";
    })
  if is_empty value then ok not_found_handler else made

abbrev pub status_handler : RequestHandler
status_handler = record {
  handle_request = λ w q. handle_status w;
  handler_name = codes "StatusHandler";
}

-- A call that has run out of stack
abbrev pub within_stack : Option (Result Response) → Result Response
within_stack none = throws undefined
within_stack (some r) = r

module _ (net : World → Network) (depth : ℕ) where
  -- `reverse_proxy_request_handler::init`; `depth` is how many calls of `send_request` the stack holds.
  unfoldable pub init_proxy : Bytes → NginxConfig → Result RequestHandler
  unfolding get_value_from_statement make_proxy handle_proxy
  init_proxy uri config = do
    dest ← get_value_from_statement (codes "dest") config
    let made = do
      h ← make_proxy config uri
      ok (record {
        handle_request = λ w q. within_stack (handle_proxy w (net w) depth h q);
        handler_name = codes "ProxyHandler";
      })
    if is_empty dest || is_empty uri then ok not_found_handler else made

  unfoldable pub inits : Inits
  unfolding init_static init_proxy
  inits echo uri config = ok echo_handler
  inits static uri config = init_static uri config
  inits status uri config = ok status_handler
  inits not_found uri config = ok not_found_handler
  inits proxy uri config = init_proxy uri config
  inits health uri config = ok health_handler

module _ (init : Inits) where
  -- `*res.block_config`, where the pointer may be null
  unfoldable pub init_location : HandlerKind → Location → Result RequestHandler
  init_location k l = elim l.block_config [ none ↦ throws undefined | some c ↦ init k l.uri c ]

  -- `add_request_handler`
  unfoldable pub add_request_handler : HandlerKind → Location → Locations → Result Locations
  unfolding init_location insert
  add_request_handler k l m = do h ← init_location k l; ok (insert l.uri h m)

  -- The loop over `location_results`
  unfoldable pub add_locations : List Location → Locations → Result Locations
  unfolding kind_of add_request_handler
  add_locations [] m = ok m
  add_locations (l ∷ ls) m = elim (kind_of l.handler_name) [
    | none ↦ add_locations ls m
    | some k ↦ add_request_handler k l m >>= add_locations ls
  ]

  -- The part of the constructor that fills `location_handlers_`
  unfoldable pub make_locations : NginxConfig → Result Locations
  unfolding add_locations get_location_result
  make_locations config = do ls ← get_location_result config; add_locations ls []

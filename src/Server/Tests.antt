-- ===== src/Server/Tests.antt =====
-- Runs of the server's construction on a concrete configuration.
use web_server_development.Prelude.{
  true, List, [], ◌∷◌, none, some, ◌≡◌, refl, ◌↔◌, ok, false, throws, undefined,
}
use web_server_development.Text.{Bytes, codes, equal, less, substr}
use web_server_development.StdMap.{find, insert}
use web_server_development.StdMap.Laws.{IsSorted}
use web_server_development.World.{World}
use web_server_development.Config.{
  NginxConfig, nil, cons, Statement, simple, block, Location, get_location_result,
}
use web_server_development.Session.Routing.{Locations, Shared}
use web_server_development.Handlers.Proxy.Exchange.{Network, unresolved}
use web_server_development.Text.Numbers.{to_string}
use web_server_development.Server.Accepting.{
  Acceptor, accept_next, handle_accept, signal_handler, idle, accepted, signalled, constructed,
  IsAlive, Runs-IsAlive,
}
use web_server_development.Server.{inits, echo_handler, health_handler, make_locations}
use web_server_development.Server.Registered.{IsFirst, make_locations-IsFirst}
use web_server_development.Server.Connections.{
  end_connection, Counters, no_connections, start_accept,
}
use web_server_development.Request.{Request, get}
use web_server_development.RequestParser.{is_tspecial, refused}
use web_server_development.RequestParser.WellFormed.{IsWellFormed}
use web_server_development.Connection.{connected}
use web_server_development.Handlers.Proxy.Url.{Url}
use web_server_development.Handlers.Proxy.Forward.{get_proxy_request, request_to_string}
use web_server_development.Session.Receive.{Session, new_session, received_req}
use web_server_development.Server.Upstream.{received_req-request_to_string}

runs : Unit {0}
unfolding make_locations inits equal less insert substr get_location_result
runs = tt

abbrev machine : World
machine = record {
  file = λ path. none;
  date = codes "now";
  logs = none;
  host_name = none;
  moment = 0;
}

-- No host can be reached.
abbrev offline : Network
offline = record { exchange = λ host port text. unresolved; replace_all = λ text old new. text }

abbrev location : Bytes → Bytes → Statement
location uri name = block (codes "location" ∷ uri ∷ name ∷ []) nil

-- "/echo" stands twice, and one name is not known.
abbrev config : NginxConfig
config = cons (location (codes "\"/health\"") (codes "HealthHandler")) (
    cons (location (codes "\"/echo\"") (codes "EchoHandler")) (
      cons (location (codes "\"/echo\"") (codes "HealthHandler"))
        (cons (location (codes "\"/x\"") (codes "NoHandler")) nil)))

abbrev result : Bytes → Bytes → Location
result uri name = record { uri = uri; handler_name = name; block_config = some nil }

abbrev locations : List Location
locations =
    result (codes "/health") (codes "HealthHandler")
    ∷ result (codes "/echo") (codes "EchoHandler")
    ∷ result (codes "/echo") (codes "HealthHandler")
    ∷ result (codes "/x") (codes "NoHandler")
    ∷ []

abbrev built : Locations
built = (codes "/echo", echo_handler) ∷ (codes "/health", health_handler) ∷ []

locations_test : get_location_result config ≡ ok locations
unfolding runs
locations_test = refl

built_test : make_locations (inits (λ w. offline) 1) config ≡ ok built
unfolding runs
built_test = refl

-- A location with no block has no configuration to give to its handler.
no_block_test :
    make_locations
      (inits (λ w. offline) 1)
      (cons (simple (codes "location" ∷ codes "\"/echo\"" ∷ codes "EchoHandler" ∷ [])) nil)
    ≡ throws undefined
unfolding runs
no_block_test = refl

make_locations-IsFirst_example :
    IsSorted built
    × ((find (codes "/echo") built ≡ some echo_handler)
        ↔ IsFirst (inits (λ w. offline) 1) (codes "/echo") echo_handler locations)
make_locations-IsFirst_example =
    make_locations-IsFirst (inits (λ w. offline) 1) config (codes "/echo") echo_handler
      locations_test built_test

abbrev one_open : Counters
unfolding start_accept
one_open = start_accept no_connections

-- An accept fails, and the signal comes.
abbrev shut_down : Acceptor
unfolding accept_next handle_accept signal_handler
shut_down = signal_handler (handle_accept true (accept_next idle))

Runs-IsAlive_example : IsAlive shut_down
unfolding shut_down start_accept end_connection to_string
Runs-IsAlive_example = Runs-IsAlive shut_down (
    signalled (handle_accept true (accept_next idle)) refl
      (accepted (accept_next idle) true refl refl constructed))

-- A request for the proxy, and where it sends it
abbrev wanted : Request
wanted = record {
  method = get;
  uri = codes "/proxy/a";
  version = codes "HTTP/1.1";
  headers = (codes "Connection", codes "close") ∷ [];
  body = [];
}

abbrev upstream : Url
upstream = record { host = codes "h"; path = codes "/a"; query = [] }

wanted-IsWellFormed : IsWellFormed wanted
unfolding is_tspecial refused
wanted-IsWellFormed = record {
  uri_clean = refl;
  version_IsVersion = record {
    major = codes "1";
    minor = codes "1";
    version_is = refl;
    major_IsDigits = ((λ e. cc), refl);
    minor_IsDigits = ((λ e. cc), refl);
  };
  headers_IsHeader = ((((λ e. cc), refl), refl), tt);
  headers_IsSorted = (tt, tt);
}

abbrev accepted_session : Session
accepted_session = new_session (connected (some (codes "10.0.0.1", 5000)))

abbrev no_state : Shared
no_state = record { cache_query = []; log = []; machines = λ n. machine }

received_req-request_to_string_example :
    (text : Bytes) × (request_to_string (get_proxy_request wanted upstream) ≡ ok text)
    × (received_req [] 1000 false text accepted_session no_state ≡ none)
unfolding find equal
received_req-request_to_string_example =
    received_req-request_to_string [] 1000 wanted upstream accepted_session no_state (refl, refl)
      wanted-IsWellFormed (λ e. cc) refl refl refl refl refl

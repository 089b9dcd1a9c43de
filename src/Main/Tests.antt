-- ===== src/Main/Tests.antt =====
-- Runs of `main` on concrete input.
use web_server_development.Prelude.{
  ℕ, List, [], ◌∷◌, none, some, ◌≡◌, refl, ◌↔◌, ◌⊎◌, ok, All, if◌then◌else◌, ◌==◌,
}
use web_server_development.Text.{Bytes, codes, equal, less, substr, substr_from}
use web_server_development.StdMap.{find, assign, insert}
use web_server_development.Text.Numbers.{to_string, atoi}
use web_server_development.Request.{Request, empty_request, get}
use web_server_development.Response.Laws.{HasLength}
use web_server_development.World.{World}
use web_server_development.Log.{Remote, log_metrics}
use web_server_development.Handlers.Proxy.Exchange.{Network, unresolved}
use web_server_development.Handlers.Health.{handle_health}
use web_server_development.Session.Routing.{Locations, Shared}
use web_server_development.Session.Memo.{process_all}
use web_server_development.Server.{inits, health_handler}
use web_server_development.Config.{get_location_result, parse_port}
use web_server_development.Main.{Platform, serves, returns, main}
use web_server_development.Main.Starting.{Serves, main-Serves}
use web_server_development.Main.Returning.{IsDenied, denied, main-returns}
use web_server_development.Main.Measured.{main-HasLength}

runs : Unit {0}
unfolding main inits equal less substr substr_from find assign insert get_location_result to_string
    atoi parse_port
runs = tt

abbrev machine : World
unfolding equal
machine = record {
  file = λ path.
      if equal path (codes "conf")
      then some (codes "port 40000; location \"/health\" HealthHandler { }")
      else none;
  date = codes "now";
  logs = none;
  host_name = none;
  moment = 0;
}

abbrev offline : Network
offline = record { exchange = λ host port text. unresolved; replace_all = λ text old new. text }

-- The ports below 1024 are forbidden.
abbrev platform : Platform
platform = record {
  bind = λ port. if port == 80 then some denied else none;
  what = λ fault. codes "stoi";
}

abbrev argv : List Bytes
argv = codes "server" ∷ codes "conf" ∷ []

abbrev locations : Locations
locations = (codes "/health", health_handler) ∷ []

-- A port above 32767 survives.
served_test : (main machine (inits (λ w. offline) 1) platform argv).ending ≡ serves 40000 locations
unfolding runs
served_test = refl

returned_test :
    (main machine (inits (λ w. offline) 1) platform (codes "server" ∷ [])).ending ≡ returns 1
unfolding runs
returned_test = refl

main-Serves_example :
    ((main machine (inits (λ w. offline) 1) platform argv).ending ≡ serves 40000 locations)
    ↔ Serves machine (inits (λ w. offline) 1) platform argv 40000 locations
main-Serves_example = main-Serves machine (inits (λ w. offline) 1) platform argv 40000 locations

-- Another machine, whose configuration names a forbidden port
abbrev forbidding : World
forbidding = record {
  file = λ path. some (codes "port 80;");
  date = codes "now";
  logs = none;
  host_name = none;
  moment = 0;
}

denied_test : (main forbidding (inits (λ w. offline) 1) platform argv).ending ≡ returns 0
unfolding runs
denied_test = refl

abbrev zero_code : ℕ
zero_code = 0

main-returns_example :
    ((zero_code ≡ 1) ⊎ (zero_code ≡ 0))
    × ((zero_code ≡ 0) ↔ IsDenied forbidding (inits (λ w. offline) 1) platform argv)
main-returns_example =
    main-returns forbidding (inits (λ w. offline) 1) platform argv zero_code denied_test

abbrev get_health : Request
get_health = record empty_request {
  method = get;
  uri = codes "/health";
  version = codes "HTTP/1.1";
}

-- The second answer is from the cache.
abbrev two : List (Remote × Request)
two = (none, get_health) ∷ (some (codes "::1", 5), get_health) ∷ []

abbrev after : Shared
unfolding handle_health assign to_string log_metrics
after = record {
  cache_query = (codes "/health", handle_health machine get_health) ∷ [];
  log = log_metrics get_health (handle_health machine get_health) none (codes "HealthHandler") ∷ [];
  machines = λ n. machine;
}

two_test :
    process_all locations two (record { cache_query = []; log = []; machines = λ n. machine })
    ≡ ok (handle_health machine get_health ∷ handle_health machine get_health ∷ [], after)
unfolding runs process_all after
two_test = refl

main-HasLength_example :
    All HasLength (handle_health machine get_health ∷ handle_health machine get_health ∷ [])
main-HasLength_example =
    main-HasLength machine (λ w. offline) 1 platform argv two [] (λ n. machine) served_test two_test

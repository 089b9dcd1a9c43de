-- ===== src/Config/Tests.antt =====
-- Runs of the configuration parser and of the queries on concrete input.
use web_server_development.Prelude.{List, [], ◌∷◌, some, ◌≡◌, refl, ◌≢◌, ok, throws, undefined}
use web_server_development.Text.{Bytes, codes, equal, substr}
use web_server_development.Text.Numbers.{atoi}
use web_server_development.Config.{
  NginxConfig, nil, cons, simple, block, parse_port, get_value_from_statement, Location,
  get_location_result, to_string,
}
use web_server_development.Config.Parser.{accepted, crashed, unfinished, parse}
use web_server_development.Config.Words.{bare, double_quoted}
use web_server_development.Config.Printable.{IsPrintable}
use web_server_development.Config.RoundTrip.{parse-to_string}
use web_server_development.Config.Accepted.{parse-IsPrintable}
use web_server_development.Config.Fuel.{parse-ends}
use web_server_development.Config.Locations.{parse-locations}
use web_server_development.Config.Port.{leaves, first_port, parse_port-first_port}

runs : Unit {0}
unfolding parse parse_port get_value_from_statement get_location_result to_string equal substr atoi
runs = tt

abbrev server_text : Bytes
server_text =
    codes "port 80; # the port\nlocation \"/static\" StaticHandler {\n  root \"/files\";\n}\n"

abbrev files : NginxConfig
files = cons (simple (codes "root" ∷ codes "\"/files\"" ∷ [])) nil

abbrev server_config : NginxConfig
server_config =
    cons (simple (codes "port" ∷ codes "80" ∷ []))
      (cons (block (codes "location" ∷ codes "\"/static\"" ∷ codes "StaticHandler" ∷ []) files) nil)

server_test : parse server_text ≡ accepted server_config
unfolding runs
server_test = refl

port_test : parse_port server_config ≡ ok (some 80)
unfolding runs
port_test = refl

abbrev static_location : Location
static_location = record {
  uri = codes "/static";
  handler_name = codes "StaticHandler";
  block_config = some files;
}

location_test : get_location_result server_config ≡ ok (static_location ∷ [])
unfolding runs
location_test = refl

-- A brace too many pops the last configuration, and the next token is put on no stack.
crash_test : parse (codes "a {\n}\n}\nb;\n") ≡ crashed
unfolding runs
crash_test = refl

-- A key with no value is read past the end of its tokens.
value_test :
    get_value_from_statement (codes "root") (cons (simple (codes "root" ∷ [])) nil)
    ≡ throws undefined
unfolding runs
value_test = refl

server_config-IsPrintable : IsPrintable server_config
unfolding IsPrintable
server_config-IsPrintable = (
  (bare b'p' (codes "ort") refl refl refl, (bare b'8' (codes "0") refl refl refl, tt)),
  (
    (
      (
        bare b'l' (codes "ocation") refl refl refl,
        (
          double_quoted (codes "/static") refl refl,
          (bare b'S' (codes "taticHandler") refl refl refl, tt),
        ),
      ),
      (
        (bare b'r' (codes "oot") refl refl refl, (double_quoted (codes "/files") refl refl, tt)),
        tt,
      ),
    ),
    tt,
  ),
)

parse-to_string_example : parse (to_string 0 server_config) ≡ accepted server_config
parse-to_string_example = parse-to_string 0 server_config server_config-IsPrintable

parse-IsPrintable_example :
    IsPrintable server_config × (parse (to_string 3 server_config) ≡ accepted server_config)
parse-IsPrintable_example = parse-IsPrintable server_text 3 server_test

parse-ends_example : parse server_text ≢ unfinished
parse-ends_example = parse-ends server_text

parse_port-first_port_example : parse_port server_config ≡ first_port (leaves server_config)
parse_port-first_port_example = parse_port-first_port server_config

parse-locations_example : (ls : List Location) × (get_location_result server_config ≡ ok ls)
parse-locations_example = parse-locations server_text server_test

-- ===== src/Main.antt =====
-- src/server_main.cc: `main`, up to the loop of the worker threads.
pub mod Starting
pub mod Returning
pub mod Measured
mod Tests
use web_server_development.Prelude.{
  ℕ, ◌+◌, ◌-◌, ◌^◌, ◌%◌, List, [], ◌∷◌, ◌++◌, Option, none, some, Result, ok, throws, Fault,
  undefined, ltb, if◌then◌else◌,
}
use web_server_development.Prelude.Int.{ℤ, pos, negsuc}
use web_server_development.Text.{Bytes, codes, equal}
use web_server_development.World.{World}
use web_server_development.Log.{log_all_handlers, log_error_file, log_trace_file}
use web_server_development.Config.{NginxConfig, parse_port, get_location_result}
use web_server_development.Config.Parser.{accepted, rejected, crashed, unfinished, parse_file}
use web_server_development.Session.Routing.{Locations}
use web_server_development.Server.{Inits, make_locations}

-- The parts of the platform: `what()` of the exception that the acceptor throws for a port, if it
-- throws one, and `what()` of the exceptions of the program's own calls
pub record Platform : Type 0 where
  pub bind : ℕ → Option Bytes
  pub what : Fault → Bytes

-- How `main` goes: it returns a number, its behaviour is undefined, or its threads serve a port.
pub data Ending : Type 0 where
  returns : ℕ → Ending
  breaks : Ending
  serves : ℕ → Locations → Ending

-- What it has logged, and how it goes
pub record Run : Type 0 where
  pub log : List Bytes
  pub ending : Ending

-- `(short)port`
unfoldable pub to_short : ℕ → ℤ
to_short n = let m = n % 2 ^ 16 in if ltb m (2 ^ 15) then pos m else negsuc (2 ^ 16 - 1 - m)

-- The `unsigned short` that `tcp::endpoint` makes of a `short`
unfoldable pub to_port : ℤ → ℕ
to_port (pos n) = n % 2 ^ 16
to_port (negsuc n) = 2 ^ 16 - 1 - n % 2 ^ 16

-- The `catch` clause
unfoldable pub caught : List Bytes → Bytes → Run
unfolding equal
caught log what =
    if equal what (codes "bind: Permission denied")
    then record {
      log = log ++ log_error_file (codes "port forbidden please choose another port") ∷ [];
      ending = returns 0;
    }
    else record { log = log ++ log_error_file what ∷ []; ending = returns 1 }

module _ (w : World) (init : Inits) (sys : Platform) where
  abbrev pub failed : List Bytes → Bytes → Run
  failed log message = record { log = log ++ log_error_file message ∷ []; ending = returns 1 }

  -- Undefined behaviour, or an exception
  unfoldable pub faulted : List Bytes → Fault → Run
  unfolding caught
  faulted log undefined = record { log = log; ending = breaks }
  faulted log fault = caught log (sys.what fault)

  -- What the constructor of the server logs, and `main` behind it
  unfoldable pub started : List Bytes → ℕ → NginxConfig → Locations → Run
  unfolding get_location_result log_all_handlers faulted
  started log port config m = elim (get_location_result config) [
    | throws fault ↦ faulted log fault
    | ok ls ↦ record {
      log =
          log
          ++ (log_all_handlers ls
              ∷ log_trace_file (codes "Number of Connections: 0")
              ∷ log_trace_file (codes "server startup successed")
              ∷ []);
      ending = serves port m;
    }
  ]

  -- `server s(io_service, (short)port, config)`
  unfoldable pub start : List Bytes → ℕ → NginxConfig → Run
  unfolding make_locations faulted caught to_short to_port started
  start log port config = elim (sys.bind (to_port (to_short port))) [
    | some what ↦ caught log what
    | none ↦ elim (make_locations init config) [
      | throws fault ↦ faulted log fault
      | ok m ↦ started log (to_port (to_short port)) config m
    ]
  ]

  abbrev pub bad_port : Bytes
  bad_port = codes "invalid port number in cofig file,the port numbers range from 0 to 65535"

  -- The port of the configuration
  unfoldable pub choose_port : List Bytes → NginxConfig → Run
  unfolding parse_port start faulted
  choose_port log config = elim (parse_port config) [
    | throws fault ↦ faulted log fault
    | ok none ↦ failed log bad_port
    | ok (some port) ↦
        start (log ++ log_trace_file (codes "server config parsing successed") ∷ []) port config
  ]

  abbrev pub begun : List Bytes
  begun = log_trace_file (codes "server config parsing begins") ∷ []

  -- `argv`, the name of the program included. The parser is never `unfinished`.
  unfoldable pub main : List Bytes → Run
  unfolding parse_file choose_port
  main (program ∷ config_file ∷ []) = elim (parse_file w config_file) [
    | accepted config ↦ choose_port begun config
    | rejected ↦ failed begun (codes " config parsing failed")
    | crashed ↦ record { log = begun; ending = breaks }
    | unfinished ↦ record { log = begun; ending = breaks }
  ]
  main argv = failed [] (codes "Argument count mismatch. Usage: async_tcp_echo_server config_file")

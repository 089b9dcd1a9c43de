-- ===== src/Handlers/Tests.antt =====
-- Runs of the handlers on concrete requests.
use web_server_development.Prelude.{Option, none, some, ◌≡◌, refl, Result, ok, if◌then◌else◌}
use web_server_development.Text.{Bytes, codes, equal}
use web_server_development.Request.{Request, empty_request, get}
use web_server_development.Response.{Response, StatusCode, okay}
use web_server_development.World.{World}
use web_server_development.Handlers.Static.{StaticHandler, handle_static}

-- A machine with one file, and one above the directory that is served
abbrev one_file : World
unfolding equal
one_file = record {
  file = λ path.
      if equal path (codes "./files/a.txt")
      then some (codes "hello")
      else if equal path (codes "./files/../secret")
      then some (codes "secret")
      else none;
  date = codes "now";
  logs = none;
  host_name = none;
  moment = 0;
}

abbrev files : StaticHandler
files = record { root = codes "./files/"; prefix = codes "/static/" }

abbrev get_uri : Bytes → Request
get_uri uri = record empty_request { method = get; uri = uri; version = codes "HTTP/1.1" }

code_and_body : Result Response → Option (StatusCode × Bytes)
code_and_body (ok r) = some (r.code, r.body)
code_and_body _ = none

file_test :
    code_and_body (handle_static one_file files (get_uri (codes "/static/a.txt")))
    ≡ some (okay, codes "hello")
unfolding handle_static code_and_body one_file
file_test = refl

-- The name is joined to the root as it stands, so it may climb out of it.
outside_test :
    code_and_body (handle_static one_file files (get_uri (codes "/static/../secret")))
    ≡ some (okay, codes "secret")
unfolding handle_static code_and_body one_file
outside_test = refl

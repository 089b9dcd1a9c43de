-- ===== src/Handlers/Status/Tests.antt =====
-- A page of the status handler on a concrete log.
use web_server_development.Prelude.{List, [], ◌∷◌, ◌++◌, none, some, ◌≡◌, refl, ok, All, map, arith}
use web_server_development.Text.{Bytes, codes}
use web_server_development.Text.Search.{find_text, is_prefix}
use web_server_development.Text.Stream.{lines_from}
use web_server_development.Text.Numbers.{to_string}
use web_server_development.Request.{empty_request, get}
use web_server_development.Response.{Response, empty_response, okay, set_code}
use web_server_development.Response.Laws.{HasLength}
use web_server_development.World.{World}
use web_server_development.Log.{log_all_handlers, log_metrics}
use web_server_development.Config.{Location}
use web_server_development.Handlers.Status.{pad, status_response, handle_status}
use web_server_development.Handlers.Status.Requests.{Entry, entry_line, log_file}
use web_server_development.Handlers.Status.Mixed.{Line, IsLine}
use web_server_development.Handlers.Status.Page.{IsFirstLine, log_of, page, handle_status-page}
use web_server_development.Handlers.Status.Answers.{handle_status_total}

-- A stamp such as Boost.Log writes
abbrev stamp : Bytes
stamp = codes "2018-May-29 12:00:00 [0x1] [trace] [9] [3] "

abbrev entry : Bytes → Response → Entry
entry uri res = record {
  stamp = stamp;
  req = record empty_request { method = get; uri = uri };
  res = res;
  remote = none;
  handler_name = codes "EchoHandler";
}

abbrev entries : List Entry
entries =
    entry (codes "/echo") (set_code okay empty_response) ∷ entry (codes "/x") empty_response ∷ []

abbrev machine : World
machine = record {
  file = λ path. none;
  date = codes "now";
  logs = some (some (log_file (map entry_line entries)) ∷ []);
  host_name = some (codes "host");
  moment = 0;
}

abbrev locations : List Location
locations =
    record { uri = codes "/echo"; handler_name = codes "EchoHandler"; block_config = none }
    ∷ record { uri = codes "/s"; handler_name = codes "StaticHandler"; block_config = none }
    ∷ []

-- The lines of two requests, one of them behind its line of arrival
abbrev lines : List Line
lines =
    Line.other (stamp ++ codes "Trace: GET /echo HTTP  Host:a IP: 10.0.0.1 Port: 5000")
    ∷ map Line.entry entries

-- A machine whose log begins with the line of the start
-- What `main` logs first
abbrev begins : Bytes
begins = stamp ++ codes "Trace: server config parsing begins"

abbrev logging : World
logging = record machine { logs = some (some (log_of (begins ∷ []) stamp locations lines) ∷ []) }

locations-IsFirstLine : IsFirstLine stamp locations
unfolding find_text is_prefix log_all_handlers
locations-IsFirstLine = record {
  mark_is_first = refl;
  is_no_request = refl;
  is_line = refl;
  words_IsWords = (
    record { name_clean = refl; uri_clean = refl },
    (record { name_clean = refl; uri_clean = refl }, tt),
  );
}

lines-IsLine : All IsLine lines
unfolding log_metrics find_text is_prefix
lines-IsLine = (
  (refl, refl, refl),
  (
    (record { stamp_clean = refl; uri_clean = refl; is_line = refl }, refl),
    ((record { stamp_clean = refl; uri_clean = refl; is_line = refl }, refl), tt),
  ),
)

handle_status-page_example :
    handle_status logging ≡ ok (status_response logging (page (codes "host") locations entries))
unfolding find_text is_prefix log_metrics
handle_status-page_example =
    handle_status-page logging (codes "host") (begins ∷ []) stamp locations lines refl refl
      ((refl, refl, refl), tt) locations-IsFirstLine lines-IsLine (omega arith)

handle_status_total_example :
    (r : Response) × (handle_status machine ≡ ok r) × (r.code ≡ okay) × HasLength r
unfolding lines_from log_metrics
handle_status_total_example =
    handle_status_total machine (some (log_file (map entry_line entries)) ∷ []) (codes "host") refl
      refl (omega arith)

-- A machine with no log
abbrev fresh : World
fresh = record {
  file = λ path. none;
  date = codes "now";
  logs = some [];
  host_name = some (codes "host");
  moment = 0;
}

abbrev fresh_body : Bytes
unfolding pad
fresh_body =
    pad (codes "handlers name")
    ++ (codes "URL prefixes\r\n\r\nTotal Requests: 0\nCurrent Host Name: host\n\n"
        ++ (pad (codes "requests URL") ++ codes "response codes\r\n"))

fresh_test : handle_status fresh ≡ ok (status_response fresh fresh_body)
unfolding handle_status to_string fresh_body
fresh_test = refl

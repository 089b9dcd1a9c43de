-- ===== src/Session/ReportedTests.antt =====
-- The status page of a server that has begun to wait, and whose session has served one request.
use web_server_development.Prelude.{[], ◌∷◌, none, some, ◌≡◌, refl, ok, List, All, arith, ℕ}
use web_server_development.Text.{Bytes, codes, equal}
use web_server_development.StdMap.{find}
use web_server_development.Text.Search.{find_text, is_prefix}
use web_server_development.Text.Numbers.{to_string}
use web_server_development.World.{World}
use web_server_development.Config.{Location}
use web_server_development.Response.{build}
use web_server_development.Connection.{remote_endpoint}
use web_server_development.Log.{log_all_handlers, log_metrics, log_request_info}
use web_server_development.Handlers.Health.{handle_health}
use web_server_development.Handlers.Status.{status_response, handle_status}
use web_server_development.Handlers.Status.Requests.{log_file}
use web_server_development.Handlers.Status.Mixed.{entries_of, IsLine}
use web_server_development.Handlers.Status.Page.{IsFirstLine, page}
use web_server_development.Session.Routing.{Shared}
use web_server_development.Session.Receive.{Session, serve}
use web_server_development.Session.Memo.{Answer, Agrees, no_memory, memo_all}
use web_server_development.Session.Logged.{arrival}
use web_server_development.Session.Reported.{stamped, lines_of, handle_status-serve}
use web_server_development.Session.Tests.{machine, two_locations, fresh, unused, post_parsed}

abbrev known : List Location
known = record { uri = codes "/"; handler_name = codes "HealthHandler"; block_config = none } ∷ []

-- What the server logs when it starts, and then of the request
abbrev starts : Bytes
starts = codes "all handlers: HealthHandler / "

abbrev arrives : Bytes
arrives = codes "Trace: POST / HTTP  Content-Length:2 IP: 10.0.0.1 Port: 5000"

abbrev responds : Bytes
responds =
    codes
      "ResponseMetrics:  Response code : 200 Request path: / IP: 10.0.0.1 Matched request handler name: HealthHandler"

-- In front of its construction, and behind that
abbrev begins : Bytes
begins = codes "Trace: server config parsing begins"

abbrev counts : Bytes
counts = codes "Trace: Number of Connections: 0"

abbrev before : Shared
before = record unused { log = begins ∷ starts ∷ counts ∷ [] }

abbrev answers : List Answer
answers =
    record {
      response = handle_health machine post_parsed.req;
      made_by = some (codes "HealthHandler");
    }
    ∷ []

abbrev after : Shared
after = record {
  cache_query = (codes "/", handle_health machine post_parsed.req) ∷ [];
  log = begins ∷ starts ∷ counts ∷ arrives ∷ responds ∷ [];
  machines = λ n. machine;
}

abbrev answered : Session
answered = record fresh {
  connection = record fresh.connection {
    writes = 1;
    written = build (handle_health machine post_parsed.req) ∷ [];
  };
}

serve_test : serve two_locations (post_parsed.req ∷ []) fresh before ≡ ok (answered, after)
unfolding serve log_request_info log_metrics to_string remote_endpoint handle_health equal
serve_test = refl

before-Agrees : Agrees before (no_memory (λ n. machine))
unfolding find
before-Agrees = record { cache_is = λ uri. refl; machines_is = refl }

abbrev stamps : ℕ → Bytes
stamps n = codes "2018-May-29 12:00:00 [0x1] [trace] [9] [3] "

abbrev reporting : World
reporting = record machine {
  logs = some (some (log_file (stamped stamps 0 after.log)) ∷ []);
  host_name = some (codes "host");
}

starts-IsFirstLine : IsFirstLine (stamps 1) known
unfolding find_text is_prefix log_all_handlers
starts-IsFirstLine = record {
  mark_is_first = refl;
  is_no_request = refl;
  is_line = refl;
  words_IsWords = (record { name_clean = refl; uri_clean = refl }, tt);
}

lines-IsLine :
    All IsLine (lines_of stamps 3 (codes "10.0.0.1", 5000) (post_parsed.req ∷ []) answers)
unfolding arrival find_text is_prefix log_metrics handle_health to_string
lines-IsLine = (
  (refl, refl, refl),
  ((record { stamp_clean = refl; uri_clean = refl; is_line = refl }, refl), tt),
)

handle_status-serve_example :
    handle_status reporting
    ≡ ok (
        status_response reporting (
          page (codes "host") known (
            entries_of
              (lines_of stamps 3 (codes "10.0.0.1", 5000) (post_parsed.req ∷ []) answers))))
unfolding memo_all equal log_all_handlers find_text is_prefix
handle_status-serve_example =
    handle_status-serve reporting (codes "host") stamps known (begins ∷ []) (counts ∷ [])
      two_locations (codes "10.0.0.1", 5000) (post_parsed.req ∷ []) fresh answered before after
      (no_memory (λ n. machine)) answers (unfold remote_endpoint in refl) before-Agrees refl refl
      serve_test refl refl starts-IsFirstLine ((refl, refl, refl), tt) ((refl, refl, refl), tt)
      lines-IsLine (omega arith)

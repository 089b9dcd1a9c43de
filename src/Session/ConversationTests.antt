-- ===== src/Session/ConversationTests.antt =====
-- A session's connection on concrete input: the order of its callbacks, and a conversation.
use web_server_development.Prelude.{
  ◌+◌, true, false, [], ◌∷◌, ◌++◌, none, some, ◌≡◌, refl, arith, inl, ok, List, All, Option, Result,
}
use web_server_development.Text.{codes, equal, less}
use web_server_development.Text.Numbers.{stoi, to_string}
use web_server_development.StdMap.{find, insert}
use web_server_development.Request.{Request, get}
use web_server_development.RequestParser.{parse, commit_header, decrement, is_tspecial, refused}
use web_server_development.RequestParser.WellFormed.{IsVersion, IsWellFormed}
use web_server_development.Connection.{
  Connection, remote_endpoint, expires_from_now, read, timeout, read_ends, expires, calls_expired,
}
use web_server_development.Handlers.Echo.{handle_echo, echo_text}
use web_server_development.Handlers.Health.{handle_health}
use web_server_development.Session.Routing.{Shared}
use web_server_development.Session.Receive.{Session, start, received_req}
use web_server_development.Session.Memo.{Answer, no_memory, memo_all}
use web_server_development.Session.Lifetime.{
  Running, connection_of, with_connection, Steps, receives, times, times_out, stays, goes_on, begun,
}
use web_server_development.Session.Ending.{Ends, Steps-Ends}
use web_server_development.Session.Clients.{Serves, begun-Serves}
use web_server_development.Session.Trailing.{received_req-trailing}
use web_server_development.Session.Logged.{Served, serve-Served}
use web_server_development.Session.Guarded.{IsGuarded, begun-Steps-IsGuarded}
use web_server_development.Session.Delivered.{Delivery, IsDelivered, echo_text-IsDelivered}
use web_server_development.Session.Tests.{
  machine, two_locations, peer, unused, unused-Agrees, fresh, post_text, post_parsed, post_test,
}

runs : Unit {0}
unfolding parse commit_header insert decrement is_tspecial refused stoi equal less
runs = tt

-- The timer of a new session expires, and then the call of `timeout` closes its socket.
abbrev opened : Running
opened = begun peer unused

abbrev expired : Running
expired = with_connection opened (expires (connection_of opened))

abbrev shut : Running
shut = with_connection expired (calls_expired (connection_of expired))

expires-Steps : Steps two_locations opened expired
unfolding begun start read expires_from_now
expires-Steps = goes_on opened expired stays (times refl (omega arith))

shut-Steps : Steps two_locations opened shut
unfolding begun start read expires_from_now expires
shut-Steps = goes_on expired shut expires-Steps (times_out 0 refl (omega arith))

begun-Steps-IsGuarded_example : IsGuarded (connection_of shut)
begun-Steps-IsGuarded_example = begun-Steps-IsGuarded two_locations peer unused shut shut-Steps

-- Its read fails then.
abbrev over : Running
over = with_connection shut (read_ends (connection_of shut))

over-Steps : Steps two_locations shut over
unfolding begun start read expires_from_now expires calls_expired timeout received_req
over-Steps =
    goes_on shut over stays
      (receives 0 0 true [] over.session unused refl (inl refl) (omega arith) refl)

Steps-Ends_example : Ends over-Steps
unfolding calls_expired timeout
Steps-Ends_example =
    Steps-Ends two_locations shut over over-Steps
      (begun-Steps-IsGuarded two_locations peer unused shut shut-Steps) (inl refl)

-- The timer expires while a request is handled: the call of `timeout` closes the socket behind the
-- write.
abbrev slow : Session
slow = record fresh { connection = record fresh.connection { reads = 0; expired = 1 } }

state_of_slow : Option (Result (Session × Shared)) → Connection
state_of_slow (some (ok (c, s))) = calls_expired c.connection
state_of_slow _ = fresh.connection

-- The socket is closed, while one write is under way.
slow_test :
    ((state_of_slow (received_req two_locations 1 false post_text slow unused)).is_open ≡ false)
    × ((state_of_slow (received_req two_locations 1 false post_text slow unused)).writes ≡ 1)
unfolding received_req runs calls_expired timeout find to_string state_of_slow
slow_test = (refl, refl)

-- Two requests, the second cut in its header and in front of its body
abbrev first_request : Request
first_request = record {
  method = get;
  uri = codes "/echo/";
  version = codes "HTTP/1.1";
  headers = (codes "Host", codes "a") ∷ [];
  body = [];
}

one_zero : IsVersion (codes "HTTP/1.1")
one_zero = record {
  major = codes "1";
  minor = codes "1";
  version_is = refl;
  major_IsDigits = ((λ e. cc), refl);
  minor_IsDigits = ((λ e. cc), refl);
}

first_request-IsWellFormed : IsWellFormed first_request
unfolding is_tspecial refused
first_request-IsWellFormed = record {
  uri_clean = refl;
  version_IsVersion = one_zero;
  headers_IsHeader = ((((λ e. cc), refl), refl), tt);
  headers_IsSorted = (tt, tt);
}

second_request-IsWellFormed : IsWellFormed post_parsed.req
unfolding is_tspecial refused
second_request-IsWellFormed = record {
  uri_clean = refl;
  version_IsVersion = one_zero;
  headers_IsHeader = ((((λ e. cc), refl), refl), tt);
  headers_IsSorted = (tt, tt);
}

abbrev first_delivery : Delivery
first_delivery = record {
  request = first_request;
  first = (b'G', codes "ET /echo/ HTTP/1.1\r\nHost: a\r\n\r\n");
  later = [];
}

abbrev second_delivery : Delivery
second_delivery = record {
  request = post_parsed.req;
  first = (b'P', codes "OST / HTTP/1.1\r\nContent-Le");
  later = (b'n', codes "gth: 2\r\n\r\n") ∷ (b'h', codes "i") ∷ [];
}

abbrev deliveries : List Delivery
deliveries = first_delivery ∷ second_delivery ∷ []

deliveries-IsDelivered : All IsDelivered deliveries
unfolding echo_text find stoi equal
deliveries-IsDelivered = (
  echo_text-IsDelivered first_delivery refl first_request-IsWellFormed (λ e. cc) refl,
  (echo_text-IsDelivered second_delivery refl second_request-IsWellFormed (λ e. cc) refl, tt),
)

abbrev conversation : List Answer
conversation =
    record { response = handle_echo machine first_request; made_by = some (codes "EchoHandler") }
    ∷ record {
      response = handle_health machine post_parsed.req;
      made_by = some (codes "HealthHandler");
    }
    ∷ []

begun-Serves_example : Serves two_locations 1 deliveries opened conversation
unfolding find memo_all equal
begun-Serves_example =
    begun-Serves two_locations 0 (codes "10.0.0.1", 5000) deliveries unused
      (no_memory (λ n. machine)) conversation deliveries-IsDelivered
      (omega arith, (omega arith, (omega arith, (omega arith, tt)))) unused-Agrees refl

-- The socket is closed while a request in three reads is there.
abbrev closed : Session
closed = record fresh { connection = record fresh.connection { is_open = false } }

-- The read of a session fails while the call of `timeout` is to come: nothing holds the session, and
-- the call still comes.
abbrev freed : Connection
freed = read_ends (connection_of expired)

freed_test : (freed.reads + freed.writes ≡ 0) × (freed.expired ≡ 1)
unfolding begun start read expires_from_now expires read_ends
freed_test = (refl, refl)

-- A line too many behind a request keeps the loop running.
received_req-trailing_example :
    received_req two_locations 1000 false (post_text ++ codes "\r\n") fresh unused ≡ none
unfolding refused is_tspecial
received_req-trailing_example =
    received_req-trailing two_locations 1000 post_text b'\r' b'\n' [] fresh unused (refl, refl)
      post_test refl refl refl

-- The same request twice: the second answer is from the cache.
abbrev twice : List Request
twice = post_parsed.req ∷ post_parsed.req ∷ []

-- Only the first has a handler's line.
abbrev twice_answers : List Answer
twice_answers =
    record {
      response = handle_health machine post_parsed.req;
      made_by = some (codes "HealthHandler");
    }
    ∷ record { response = handle_health machine post_parsed.req; made_by = none }
    ∷ []

serve-Served_example :
    Served two_locations (codes "10.0.0.1", 5000) twice fresh unused twice_answers
unfolding memo_all equal find remote_endpoint
serve-Served_example =
    serve-Served two_locations (codes "10.0.0.1", 5000) twice fresh unused
      (no_memory (λ n. machine)) twice_answers refl unused-Agrees refl

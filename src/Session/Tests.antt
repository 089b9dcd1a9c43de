-- ===== src/Session/Tests.antt =====
-- Runs of the session code on concrete input.
use web_server_development.Prelude.{
  true, false, [], ◌∷◌, ◌++◌, Option, none, some, ◌≡◌, refl, ◌≢◌, ◌↔◌, inr, Result, ok, throws,
  ◌>>=◌, Bool,
}
use web_server_development.Prelude.Int.{pos, negsuc}
use web_server_development.Text.{Bytes, codes, equal, less}
use web_server_development.Text.Laws.{equal_iff}
use web_server_development.Text.Numbers.{stoi}
use web_server_development.StdMap.{find, insert}
use web_server_development.Request.{Request, empty_request, get, post}
use web_server_development.RequestParser.{
  Parsed, initial, good, indeterminate, parse, commit_header, decrement, is_tspecial, refused, body,
}
use web_server_development.Response.{Response}
use web_server_development.World.{World}
use web_server_development.Log.{Remote}
use web_server_development.Handlers.Echo.{handle_echo}
use web_server_development.Handlers.Health.{handle_health}
use web_server_development.Session.Memo.{
  no_memory, Agrees, process_all, visible, expected, memo_all, process_all-memo_all,
}
use web_server_development.Session.Routing.{
  RequestHandler, Locations, Shared, Best, no_match, matches, select, process_req,
}
use web_server_development.Session.Matching.{Covers, matches_iff}
use web_server_development.Session.Selection.{NoEmptyKey, Chosen, select-Chosen}
use web_server_development.Session.Answers.{Routed, process_req-Routed}
use web_server_development.Session.Caching.{process_req_repeats}
use web_server_development.Session.Receive.{
  Session, new_session, extract, serve, wait_for_req, received_req,
}
use web_server_development.Connection.{connected}
use web_server_development.Session.Pipeline.{waiting, received_req-serves_one}
use web_server_development.Session.Hangs.{NeverReturns, received_req-refused, received_req-negative}

runs : Unit {0}
unfolding parse commit_header insert decrement is_tspecial refused stoi equal less
runs = tt

abbrev pub machine : World
machine = record {
  file = λ path. none;
  date = codes "now";
  logs = none;
  host_name = none;
  moment = 0;
}

abbrev pub echo : RequestHandler
echo = record { handle_request = λ w q. ok (handle_echo w q); handler_name = codes "EchoHandler" }

abbrev pub health : RequestHandler
health = record {
  handle_request = λ w q. ok (handle_health w q);
  handler_name = codes "HealthHandler";
}

abbrev pub two_locations : Locations
two_locations = (codes "/", health) ∷ (codes "/echo/", echo) ∷ []

two_locations-NoEmptyKey : NoEmptyKey two_locations
two_locations-NoEmptyKey = ((λ e. cc), ((λ e. cc), tt))

abbrev pub peer : Remote
peer = some (codes "10.0.0.1", 5000)

abbrev pub fresh : Session
fresh = new_session (connected peer)

abbrev pub unused : Shared
unused = record { cache_query = []; log = []; machines = λ n. machine }

-- Nothing is cached, and nothing is remembered.
pub unused-Agrees : Agrees unused (no_memory (λ n. machine))
unfolding find
unused-Agrees = record { cache_is = λ uri. refl; machines_is = refl }

abbrev get_uri : Bytes → Request
get_uri uri = record empty_request { method = get; uri = uri; version = codes "HTTP/1.1" }

abbrev echo_get : Request
echo_get = get_uri (codes "/echo/a")

abbrev key_of : Result Best → Option Bytes
key_of (ok b) = some b.max_matched_key
key_of (throws e) = none

longest_test : key_of (select (codes "/echo/a") two_locations no_match) ≡ some (codes "/echo/")
unfolding select equal
longest_test = refl

-- The last byte of the key is not compared.
last_byte_test : matches (codes "/echoX") (codes "/echo/") ≡ ok true
unfolding matches equal
last_byte_test = refl

matches_iff_example :
    ((b : Bool) × (matches (codes "/echoX") (codes "/echo/") ≡ ok b))
    × ((matches (codes "/echoX") (codes "/echo/") ≡ ok true)
        ↔ Covers (codes "/echo") (codes "/echoX"))
matches_iff_example = matches_iff (codes "/echo") (codes "/echoX") b'/'

select-Chosen_example :
    (b : Best) × ((select (codes "/echo/a") two_locations no_match ≡ ok b)
      × Chosen (codes "/echo/a") two_locations b)
select-Chosen_example = select-Chosen (codes "/echo/a") two_locations two_locations-NoEmptyKey

process_req-Routed_example :
    Routed two_locations peer echo_get unused (process_req two_locations peer echo_get unused)
process_req-Routed_example =
    process_req-Routed two_locations peer echo_get unused two_locations-NoEmptyKey (λ e. cc)
      (inr (unfold find in refl))

-- The shared state once the request is answered
abbrev state_of : Result (Response × Shared) → Shared
state_of (ok (r, s)) = s
state_of (throws e) = unused

answered : Shared
unfolding process_req
answered = state_of (process_req two_locations peer echo_get unused)

answered_test :
    process_req two_locations peer echo_get unused ≡ ok (handle_echo machine echo_get, answered)
unfolding process_req answered
answered_test = refl

abbrev echo_post : Request
echo_post = record echo_get { method = post; body = codes "x" }

not_status : codes "/echo/a" ≢ codes "/status"
unfolding equal
not_status e = cc ((equal_iff (codes "/echo/a") (codes "/status")).1 e)

process_req_repeats_example :
    (handle_echo machine echo_get ≡ handle_echo machine echo_get)
    × (process_req two_locations none echo_post answered
        ≡ ok (handle_echo machine echo_get, answered))
unfolding find answered equal process_req
process_req_repeats_example =
    process_req_repeats two_locations two_locations peer none echo_get echo_post unused not_status
      refl answered_test refl refl

-- A request in two parts, and one behind another
abbrev pub first_part : Bytes
first_part = codes "POST / HTTP/1.1\r\nContent-Length: 2\r\n\r\n"

abbrev pub post_text : Bytes
post_text = first_part ++ codes "hi"

abbrev pub post_head : Request
post_head = record {
  method = post;
  uri = codes "/";
  version = codes "HTTP/1.1";
  headers = (codes "Content-Length", codes "2") ∷ [];
  body = [];
}

abbrev head_parsed : Parsed
head_parsed = record {
  result = indeterminate;
  rest = [];
  body_len = pos 2;
  req = record post_head { method = get };
  parser = record initial { state = body; method_str = codes "POST"; body_length = pos 2 };
}

abbrev pub post_parsed : Parsed
post_parsed = record {
  result = good;
  rest = [];
  body_len = pos 0;
  req = record post_head { body = codes "hi" };
  parser = record initial { state = body; method_str = codes "POST" };
}

head_test : parse empty_request initial first_part ≡ ok head_parsed
unfolding runs
head_test = refl

pub post_test : parse empty_request initial post_text ≡ ok post_parsed
unfolding runs
post_test = refl

-- The second of two requests in one read is never served.
received_req-serves_one_example :
    received_req two_locations 1 false (post_text ++ post_text) fresh unused
    ≡ some (do
      (c', s') ← serve two_locations (post_parsed.req ∷ []) (waiting fresh post_parsed) unused
      ok (wait_for_req c', s'))
received_req-serves_one_example =
    received_req-serves_one two_locations 0 post_text post_text fresh unused post_test refl refl
      post_test refl

received_req-refused_example :
    received_req two_locations 1000 false (codes "(((") fresh unused ≡ none
unfolding refused is_tspecial
received_req-refused_example =
    received_req-refused two_locations 1000 b'(' b'(' b'(' [] fresh unused (refl, refl) refl refl

abbrev negative_text : Bytes
negative_text = codes "GET / HTTP/1.1\r\nContent-Length: -1\r\n\r\nx"

abbrev negative_parsed : Parsed
negative_parsed = record {
  result = indeterminate;
  rest = [];
  body_len = negsuc 1;
  req = record {
    method = get;
    uri = codes "/";
    version = codes "HTTP/1.1";
    headers = (codes "Content-Length", codes "-1") ∷ [];
    body = codes "x";
  };
  parser = record initial { state = body; method_str = codes "GET"; body_length = negsuc 1 };
}

negative_test : parse empty_request initial negative_text ≡ ok negative_parsed
unfolding runs
negative_test = refl

received_req-negative_example :
    NeverReturns (extract 1000 negative_text [] fresh.request fresh.request_parser)
    × NeverReturns (received_req two_locations 1000 false negative_text fresh unused)
received_req-negative_example =
    received_req-negative two_locations 1000 negative_text fresh unused negative_test refl refl
      (refl, (1, refl))

process_all-memo_all_example :
    visible
      (process_all two_locations ((peer, post_parsed.req) ∷ (none, post_parsed.req) ∷ []) unused)
    ≡ expected
        ((peer, post_parsed.req) ∷ (none, post_parsed.req) ∷ [])
        []
        (memo_all two_locations (post_parsed.req ∷ post_parsed.req ∷ []) (no_memory (λ n. machine)))
process_all-memo_all_example =
    process_all-memo_all two_locations ((peer, post_parsed.req) ∷ (none, post_parsed.req) ∷ [])
      unused (no_memory (λ n. machine)) unused-Agrees

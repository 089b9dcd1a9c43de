-- ===== src/Handlers/Proxy/Tests.antt =====
-- Runs of the proxy on concrete input.
use web_server_development.Prelude.{true, [], ◌∷◌, none, some, ◌≡◌, refl, ok, throws, out_of_range}
use web_server_development.Text.{Bytes, codes, equal, substr, less}
use web_server_development.Text.Search.{find_text}
use web_server_development.Text.Numbers.{stoi, to_string}
use web_server_development.StdMap.{find, assign, erase}
use web_server_development.Request.{Request, empty_request, get}
use web_server_development.Response.{build, Response, okay, empty_response, crlf}
use web_server_development.World.{World}
use web_server_development.Config.{NginxConfig, nil, cons, simple}
use web_server_development.Handlers.Proxy.{ProxyHandler, make_proxy, handle_proxy}
use web_server_development.Handlers.Proxy.Url.{Url, parse_url}
use web_server_development.Handlers.Proxy.Forward.{get_proxy_request, request_to_string}
use web_server_development.Handlers.Proxy.Exchange.{
  answers, finish, read_reply, Network, Reply, replied, redirects, handle_redirect, add_line,
  send_request,
}
use web_server_development.Handlers.Proxy.Prefix.{handle_proxy-prefix}
use web_server_development.Handlers.Proxy.Located.{handle_redirect-query}
use web_server_development.Handlers.Proxy.Fields.{add_line-field}
use web_server_development.Handlers.Proxy.Relayed.{Delivers, read_reply-build}
use web_server_development.Handlers.Proxy.Sent.{Reads, parse-request_to_string}
use web_server_development.RequestParser.{initial, parse, is_tspecial, refused}
use web_server_development.RequestParser.WellFormed.{IsWellFormed}
use web_server_development.Text.Cut.{lower}

runs : Unit {0}
unfolding make_proxy handle_proxy parse_url equal less substr find_text assign erase to_string
runs = tt

abbrev machine : World
machine = record {
  file = λ path. none;
  date = codes "now";
  logs = none;
  host_name = none;
  moment = 0;
}

abbrev config : NginxConfig
config = cons (simple (codes "dest" ∷ codes "\"http://UCLA.edu/base?q\"" ∷ [])) nil

abbrev proxy : ProxyHandler
proxy = record {
  prefix = codes "/proxy/";
  dest = codes "http://UCLA.edu/base?q/";
  port = codes "80";
  host = codes "ucla.edu";
  path = codes "/base";
}

make_proxy_test : make_proxy config (codes "/proxy") ≡ ok proxy
unfolding runs
make_proxy_test = refl

abbrev reply : Reply
reply = record {
  first = codes "HTTP/1.1 200 OK\r\n";
  second = codes "A: b\r\nTransfer-Encoding: chunked\r\n\r\nhel";
  others = codes "lo";
  ends = true;
}

abbrev network : Network
network = record { exchange = λ host port text. replied reply; replace_all = λ text old new. text }

abbrev get_uri : Bytes → Request
get_uri uri = record empty_request { method = get; uri = uri; version = codes "HTTP/1.1" }

-- A host that always redirects to the same url, with a query
abbrev loop_reply : Reply
loop_reply = record {
  first = codes "HTTP/1.1 302 Found\r\nLocation: http://h/b?c\r\n\r\n";
  second = [];
  others = [];
  ends = true;
}

abbrev loop_network : Network
loop_network = record {
  exchange = λ host port text. replied loop_reply;
  replace_all = λ text old new. text;
}

abbrev loop_uri : Url
loop_uri = record { host = codes "h"; path = codes "/b"; query = codes "c" }

-- The request that the proxy sends to the url
abbrev looping : Request
looping = get_proxy_request (get_uri []) loop_uri

runs_request : Unit {0}
unfolding runs get_proxy_request
runs_request = tt

abbrev hello_response : Response
hello_response = record {
  code = okay;
  headers =
      (codes "A", codes "b")
      ∷ (codes "Content-Length", codes "5")
      ∷ (codes "Date", codes "now")
      ∷ (codes "Server", codes "WNZA")
      ∷ [];
  body = codes "hello";
}

hello_response_test :
    handle_proxy machine network 1 proxy (get_uri (codes "/proxy/a")) ≡ some (ok hello_response)
unfolding runs
hello_response_test = refl

handle_proxy-prefix_example :
    handle_proxy machine network 1 proxy (get_uri (codes "/proxy/a"))
    ≡ send_request machine network
        (codes "/proxy/")
        (codes "80")
        1
        (get_proxy_request
          (get_uri (codes "/proxy/a"))
          (record { host = codes "ucla.edu"; path = codes "/a"; query = [] }))
        (codes "ucla.edu")
handle_proxy-prefix_example =
    handle_proxy-prefix machine network 1 proxy (get_uri (codes "/proxy/a")) (codes "/proxy")
      (codes "a") refl refl refl refl

handle_redirect-query_example :
    handle_redirect machine looping
      (codes "http://h/b?c")
      (record { host = codes "h"; path = codes "/bc"; query = [] })
    ≡ redirects
        (get_proxy_request looping
          (record { host = lower (codes "h"); path = codes "/b"; query = codes "c" }))
        (lower (codes "h"))
unfolding equal lower
handle_redirect-query_example =
    handle_redirect-query machine looping (codes "h") (codes "b") (codes "c")
      (record { host = codes "h"; path = codes "/bc"; query = [] }) refl refl refl

add_line-field_example : add_line (codes "Age:\r") empty_response ≡ throws out_of_range
unfolding equal
add_line-field_example = add_line-field (codes "Age") [] empty_response refl refl

-- A request with a header that the proxy drops
abbrev kept : Request
kept = record {
  method = get;
  uri = codes "/proxy/a";
  version = codes "HTTP/1.1";
  headers = (codes "Connection", codes "close") ∷ [];
  body = [];
}

kept-IsWellFormed : IsWellFormed kept
unfolding is_tspecial refused
kept-IsWellFormed = record {
  uri_clean = refl;
  version_IsVersion = record {
    major = codes "1";
    minor = codes "1";
    version_is = refl;
    major_IsDigits = ((λ e. cc), refl);
    minor_IsDigits = ((λ e. cc), refl);
  };
  headers_IsHeader = ((((λ e. cc), refl), refl), tt);
  headers_IsSorted = (tt, tt);
}

parse-request_to_string_example :
    (text : Bytes) × (request_to_string (get_proxy_request kept loop_uri) ≡ ok text)
    × Reads (parse empty_request initial text) (get_proxy_request kept loop_uri) crlf
unfolding find stoi equal
parse-request_to_string_example =
    parse-request_to_string kept loop_uri kept-IsWellFormed (λ e. cc) refl refl refl refl refl

-- A response, and its text in three parts
abbrev built : Response
built = record { code = okay; headers = (codes "A", codes "b") ∷ []; body = codes "hello" }

abbrev in_parts : Reply
in_parts = record {
  first = codes "HTTP/1.1 200 OK\r\nA:";
  second = codes " b\r\n\r\nhel";
  others = codes "lo";
  ends = true;
}

built-Delivers : Delivers built in_parts
unfolding build
built-Delivers = record {
  front = codes "A:";
  early = codes "hel";
  code_is = refl;
  first_is = refl;
  head_is = refl;
  body_is = refl;
  ends_is = refl;
}

read_reply-build_example :
    read_reply machine network (codes "/proxy/") (codes "80") empty_request (codes "h") in_parts
    ≡ answers (
        ok (
          finish machine network
            (codes "/proxy/")
            (codes "80")
            (codes "hello")
            (record { code = okay; headers = (codes "A", codes "b") ∷ []; body = [] })))
unfolding equal
read_reply-build_example =
    read_reply-build machine network (codes "/proxy/") (codes "80") empty_request (codes "h") built
      in_parts built-Delivers (tt, tt) ((refl, refl, refl), tt)

-- ===== src/Server/Upstream.antt =====
-- src/reverse_proxy_request_handler.cc, src/session.cc: a server such as this one as the destination
-- of the proxy.
use web_server_development.Prelude.{ℕ, true, false, [], ◌++◌, none, ◌≡◌, refl, ◌≢◌, ok, all}
use web_server_development.Text.{Bytes}
use web_server_development.Request.{Request, invalid}
use web_server_development.RequestParser.{refused}
use web_server_development.RequestParser.WellFormed.{IsWellFormed, is_uri_byte, is_value_byte}
use web_server_development.RequestParser.Reparse.{AnnouncesBody, parse-echo_text}
use web_server_development.Response.{crlf}
use web_server_development.Handlers.Echo.{echo_text}
use web_server_development.Handlers.Proxy.Url.{Url}
use web_server_development.Handlers.Proxy.Forward.{get_proxy_request, request_to_string}
use web_server_development.Handlers.Proxy.Sent.{
  request_to_string-echo_text, get_proxy_request-IsWellFormed, get_proxy_request-AnnouncesBody,
}
use web_server_development.Session.Routing.{Locations, Shared}
use web_server_development.Session.Receive.{Session, received_req}
use web_server_development.Session.Conversation.{IsIdle}
use web_server_development.Session.Trailing.{received_req-trailing}

return_refused : refused b'\r' ≡ true
unfolding refused
return_refused = refl

-- Let a server such as this one be the destination of the proxy, and one read bring all that the
-- proxy sends for a request. Then the loop of the source is still running there after every number
-- of rounds, for the empty line too many, and that server never comes to answer. The request is well
-- formed, has one of the four methods, has no body and announces none: it has no Content-Length, or
-- one of 0. The path and the query that the proxy asks for have no space and no control character,
-- its host has no control character, and the session is at the start of a request.
pub received_req-request_to_string :
    (locations : Locations) (fuel : ℕ) (q : Request) (dest : Url) (w : Session) (s : Shared)
    → IsIdle w
    → IsWellFormed q
    → q.method ≢ invalid
    → q.body ≡ []
    → AnnouncesBody q
    → all is_uri_byte dest.path ≡ true
    → all is_uri_byte dest.query ≡ true
    → all is_value_byte dest.host ≡ true
    → (text : Bytes) × (request_to_string (get_proxy_request q dest) ≡ ok text)
      × (received_req locations fuel false text w s ≡ none)
unfolding get_proxy_request
received_req-request_to_string locations fuel q dest w s idle good_request m b a p y h =
    let q' = get_proxy_request q dest in
    let accepted =
      parse-echo_text q' (get_proxy_request-IsWellFormed q dest good_request p y h) m
        (get_proxy_request-AnnouncesBody q dest good_request.headers_IsSorted a) in
    (
      echo_text q' ++ crlf,
      request_to_string-echo_text q' m b,
      received_req-trailing locations fuel (echo_text q') b'\r' b'\n' [] w s idle
          accepted.outcome_is accepted.result_is accepted.rest_is return_refused,
    )

-- ===== src/Handlers/Proxy/Sent.antt =====
-- What the proxy sends: the request that it makes of one, and its text.
use web_server_development.Prelude.{
  true, [], ◌++◌, Option, none, some, if◌then◌else◌, ◌≡◌, ◌≢◌, refl, ◌∙◌, ap, arith, all, Result,
  ok, append_assoc, all-append,
}
use web_server_development.Text.{Bytes, codes, equal}
use web_server_development.StdMap.{find}
use web_server_development.StdMap.Laws.{IsSorted, All-assign, find-assign}
use web_server_development.StdMap.Writes.{assign-IsSorted, erase-IsSorted, find-erase, All-erase}
use web_server_development.Request.{Request, Method, get, post, put, head, invalid, empty_request}
use web_server_development.RequestParser.{
  Parsed, good, initial, parse, is_tspecial, refused, content_length,
}
use web_server_development.RequestParser.WellFormed.{
  IsWellFormed, IsHeader, is_uri_byte, is_value_byte,
}
use web_server_development.RequestParser.Bounds.{parse_extends}
use web_server_development.RequestParser.Endings.{Accepts}
use web_server_development.RequestParser.Reparse.{AnnouncesBody, parse-echo_text}
use web_server_development.Response.{crlf}
use web_server_development.Handlers.Echo.{echo_text, method_name}
use web_server_development.Handlers.Proxy.Url.{Url}
use web_server_development.Handlers.Proxy.Forward.{
  get_proxy_request, method_word, request_to_string,
}

-- What the proxy puts in place of a header
abbrev pub forwarded_header : Url → Bytes → Option Bytes → Option Bytes
forwarded_header dest k old =
    if equal (codes "Host") k
    then some dest.host
    else if equal (codes "Accept-Encoding") k
    then some (codes "*/*")
    else if equal (codes "Connection") k
    then none
    else old

module _ (q : Request) (dest : Url) where
  find-get_proxy_request :
      (k : Bytes)
      → IsSorted q.headers
      → find k (get_proxy_request q dest).headers ≡ forwarded_header dest k (find k q.headers)
  unfolding get_proxy_request
  find-get_proxy_request k s = simp (find-assign, find-erase (codes "Connection") k q.headers s)

  pub get_proxy_request-IsWellFormed :
      IsWellFormed q
      → all is_uri_byte dest.path ≡ true
      → all is_uri_byte dest.query ≡ true
      → all is_value_byte dest.host ≡ true
      → IsWellFormed (get_proxy_request q dest)
  unfolding get_proxy_request is_tspecial refused
  get_proxy_request-IsWellFormed w p y h = record {
    uri_clean = all-append is_uri_byte dest.path dest.query ∙ ground arith;
    version_IsVersion = record {
      major = codes "1";
      minor = codes "0";
      version_is = refl;
      major_IsDigits = ((λ e. cc), refl);
      minor_IsDigits = ((λ e. cc), refl);
    };
    headers_IsHeader =
        All-assign IsHeader (codes "Host") dest.host _ (((λ e. cc), refl), h)
          (All-assign IsHeader (codes "Accept-Encoding") (codes "*/*") _ (((λ e. cc), refl), refl)
            (All-erase IsHeader (codes "Connection") q.headers w.headers_IsHeader));
    headers_IsSorted = assign-IsSorted (codes "Host") dest.host _ (
        assign-IsSorted (codes "Accept-Encoding") (codes "*/*") _
          (erase-IsSorted (codes "Connection") q.headers w.headers_IsSorted));
  }

method_word-method_name : (m : Method) → m ≢ invalid → method_word m ≡ ok (method_name m)
method_word-method_name get ne = refl
method_word-method_name post ne = refl
method_word-method_name put ne = refl
method_word-method_name head ne = refl
method_word-method_name invalid ne = absurd (ne refl)

-- The text of a request with no body is the echo handler's, and two bytes more.
pub request_to_string-echo_text :
    (q : Request)
    → q.method ≢ invalid
    → q.body ≡ []
    → request_to_string q ≡ ok (echo_text q ++ crlf)
unfolding request_to_string echo_text
request_to_string-echo_text q m b = rw (method_word-method_name q.method m) (simp (append_assoc, b))

-- `parse` comes to `good` with the request `q`, and leaves `rest`.
pub record Reads (outcome : Result Parsed) (q : Request) (rest : Bytes) : Type 0 where
  pub parsed : Parsed
  pub outcome_is : outcome ≡ ok parsed
  pub result_is : parsed.result ≡ good
  pub rest_is : parsed.rest ≡ rest
  pub req_is : parsed.req ≡ q

Accepts-Reads :
    (input rest : Bytes) (q : Request)
    → Accepts (parse empty_request initial input) q
    → Reads (parse empty_request initial (input ++ rest)) q rest
Accepts-Reads input rest q a = record {
  parsed = record a.parsed { rest = a.parsed.rest ++ rest };
  outcome_is = parse_extends input rest empty_request initial a.outcome_is a.result_is;
  result_is = a.result_is;
  rest_is = ap (λ (u : Bytes). u ++ rest) a.rest_is;
  req_is = a.req_is;
}

-- Content-Length is none of the headers that the proxy writes.
pub get_proxy_request-AnnouncesBody :
    (q : Request) (dest : Url)
    → IsSorted q.headers
    → AnnouncesBody q
    → AnnouncesBody (get_proxy_request q dest)
unfolding equal
get_proxy_request-AnnouncesBody q dest s a =
    rw (find-get_proxy_request q dest content_length s, AnnouncesBody)
      (unfold get_proxy_request in a)

-- The text that the proxy sends for a request is read by a fresh parser of the server as the
-- request that the proxy made of it, down to the last two bytes, an empty line too many. The
-- request is well formed, has one of the four methods, has no body and announces none: it has no
-- Content-Length, or one of 0. The path and the query that the proxy asks for have no space and no
-- control character, and its host has no control character.
pub parse-request_to_string :
    (q : Request) (dest : Url)
    → IsWellFormed q
    → q.method ≢ invalid
    → q.body ≡ []
    → AnnouncesBody q
    → all is_uri_byte dest.path ≡ true
    → all is_uri_byte dest.query ≡ true
    → all is_value_byte dest.host ≡ true
    → (text : Bytes) × (request_to_string (get_proxy_request q dest) ≡ ok text)
      × Reads (parse empty_request initial text) (get_proxy_request q dest) crlf
unfolding get_proxy_request
parse-request_to_string q dest w m b a p y h =
    let q' = get_proxy_request q dest in
    (
      echo_text q' ++ crlf,
      request_to_string-echo_text q' m b,
      Accepts-Reads (echo_text q') crlf q' (
          parse-echo_text q' (get_proxy_request-IsWellFormed q dest w p y h) m
            (get_proxy_request-AnnouncesBody q dest w.headers_IsSorted a)),
    )

-- ===== src/Handlers/Proxy/Exchange.antt =====
-- src/reverse_proxy_request_handler.cc: `send_request` and `handle_redirect`. What Boost does for
-- them, the exchange of bytes with the other host and the replacement in a text, is a parameter.
use web_server_development.Prelude.{
  ℕ, zero, suc, ◌+◌, Bool, not, ◌&&◌, ◌||◌, List, [], ◌∷◌, ◌++◌, Option, none, some, Result, ok,
  throws, system_error, ◌>>=◌, ◌==◌, if◌then◌else◌, length, take,
}
use web_server_development.Text.{Bytes, codes, equal, substr_from, pop_back}
use web_server_development.Text.Numbers.{to_string}
use web_server_development.Text.Search.{find_text}
use web_server_development.Text.Stream.{
  Stream, stream_of, is_good, read_word, read_unsigned, get_line, block_from, block_rest,
}
use web_server_development.Request.{Request}
use web_server_development.Response.{
  Response, empty_response, okay, set_code, add_header, add_body, make_400_error, make_404_error,
  make_date_servername_headers,
}
use web_server_development.World.{World}
use web_server_development.Handlers.Proxy.Url.{Url, parse_url}
use web_server_development.Handlers.Proxy.Forward.{get_proxy_request, request_to_string}

-- What a host sends back: the bytes in the buffer once `read_until` has looked for the end of the
-- first line, those that the second `read_until` adds for the end of the headers, those that the
-- other reads add, and whether the last read ended with `eof`
pub record Reply : Type 0 where
  pub first : Bytes
  pub second : Bytes
  pub others : Bytes
  pub ends : Bool

pub data Outcome : Type 0 where
  unresolved unconnected : Outcome
  replied : Reply → Outcome

-- Boost's part: what comes of sending a text to a host and port, the same each time, and `boost::replace_all`, of a
-- text, what to replace, and by what
pub record Network : Type 0 where
  pub exchange : Bytes → Bytes → Bytes → Outcome
  pub replace_all : Bytes → Bytes → Bytes → Bytes

unfoldable pub throw_400_error : World → Response
unfolding make_400_error make_date_servername_headers
throw_400_error w = make_date_servername_headers w (make_400_error empty_response)

-- `header.substr(header.find(":") + 2)`, where `npos + 2` is 1
unfoldable pub header_value : Bytes → Result Bytes
unfolding find_text substr_from
header_value header = elim (find_text (codes ":") header) [
  | none ↦ substr_from header 1
  | some i ↦ substr_from header (i + 2)
]

-- `header.substr(0, header.find(":"))`
unfoldable pub header_token : Bytes → Bytes
unfolding find_text
header_token header = elim (find_text (codes ":") header) [ none ↦ header | some i ↦ take i header ]

-- What one exchange comes to: a response, or a request to send to a host
pub data Step : Type 0 where
  answers : Result Response → Step
  redirects : Request → Bytes → Step

-- `location` with a protocol
unfoldable pub with_protocol : Bytes → Bytes
unfolding find_text
with_protocol location = elim (find_text (codes "http://") location) [
  | some i ↦ location
  | none ↦ elim (find_text (codes "https://") location) [
    | some i ↦ location
    | none ↦ codes "http://" ++ location
  ]
]

-- `handle_redirect`, up to its call of `send_request`
unfoldable pub handle_redirect : World → Request → Bytes → Url → Step
unfolding with_protocol parse_url equal throw_400_error get_proxy_request
handle_redirect w q location prev_loc =
    let redir_loc = parse_url (with_protocol location) in
    if equal redir_loc.host prev_loc.host && equal redir_loc.path prev_loc.path
    then answers (ok (throw_400_error w))
    else redirects (get_proxy_request q redir_loc) redir_loc.host

-- The loop over the headers of a redirection
unfoldable pub find_location : World → Request → Url → List Bytes → Step
unfolding find_text pop_back header_value handle_redirect
find_location w q prev_loc [] = answers (ok (throw_400_error w))
find_location w q prev_loc (header ∷ headers) = elim (find_text (codes "Location") header) [
  | none ↦ find_location w q prev_loc headers
  | some i ↦ elim (pop_back header >>= header_value) [
    | throws e ↦ answers (throws e)
    | ok location ↦ handle_redirect w q location prev_loc
  ]
]

-- One round of the loop over the headers of a response
unfoldable pub add_line : Bytes → Response → Result Response
unfolding pop_back header_token header_value equal
add_line line r = do
  header ← pop_back line
  let added = do value ← header_value header; ok (add_header (header_token header) value r)
  if equal (header_token header) (codes "Transfer-Encoding") then ok r else added

unfoldable pub add_lines : List Bytes → Response → Result Response
unfolding add_line
add_lines [] r = ok r
add_lines (line ∷ lines) r = do r' ← add_line line r; add_lines lines r'

-- The stream behind the first line, and the code, if the line is of a response
unfoldable pub read_status : Bytes → Option (ℕ × Stream)
unfolding read_word read_unsigned get_line equal
read_status first =
    let (http_version, s) = read_word (stream_of first) in
    let (status_code, s') = read_unsigned s in
    let (message, s'') = get_line s' in
    if s''.failed || not (equal (take 5 http_version) (codes "HTTP/"))
    then none
    else some (status_code, s'')

module _ (w : World) (net : Network) (prefix port : Bytes) where
  -- The response with its last fields
  unfoldable pub finish : Bytes → Response → Response
  unfolding make_date_servername_headers
  finish content r =
      let links = net.replace_all content (codes "href=\"/") (codes "href=\"" ++ prefix) in
      let body = net.replace_all links (codes "src=\"/") (codes "src=\"" ++ prefix) in
      make_date_servername_headers w
        (add_body body (add_header (codes "Content-Length") (to_string (length body)) r))

  -- The response with status 200
  unfoldable pub read_response : Stream → Reply → Result Response
  unfolding block_from block_rest add_lines finish
  read_response s reply =
      let buffer = s.left ++ reply.second in
      do
        r ←
            add_lines (if is_good s then block_from [] buffer else [])
              (set_code okay empty_response)
        let content = (if is_good s then block_rest [] buffer else buffer) ++ reply.others
        if reply.ends then ok (finish content r) else throws system_error

  -- What is made of a reply
  unfoldable pub read_reply : Request → Bytes → Reply → Step
  unfolding read_status find_location read_response make_404_error make_date_servername_headers
  read_reply q host reply = elim (read_status reply.first) [
    | none ↦ answers (ok (throw_400_error w))
    | some (status_code, s) ↦
        if status_code == 302 || status_code == 301
        then find_location w q (record { host = host; path = q.uri; query = [] })
            (if is_good s then block_from [] s.left else [])
        else if status_code == 200
        then answers (read_response s reply)
        else if status_code == 404
        then answers (ok (make_date_servername_headers w (make_404_error w empty_response)))
        else answers (ok (throw_400_error w))
  ]

  -- `send_request`, up to what it calls `handle_redirect` for
  unfoldable pub exchange_once : Request → Bytes → Step
  unfolding request_to_string read_reply
  exchange_once q host = elim (request_to_string q) [
    | throws e ↦ answers (throws e)
    | ok curr_request ↦ elim (net.exchange host port curr_request) [
      | unresolved ↦ answers (ok (throw_400_error w))
      | unconnected ↦ answers (ok (throw_400_error w))
      | replied reply ↦ read_reply q host reply
    ]
  ]

  -- `send_request` and `handle_redirect`, which call each other
  unfoldable pub send_request : ℕ → Request → Bytes → Option (Result Response)
  unfolding exchange_once
  send_request zero q host = none
  send_request (suc fuel) q host = elim (exchange_once q host) [
    | answers r ↦ some r
    | redirects q' host' ↦ send_request fuel q' host'
  ]

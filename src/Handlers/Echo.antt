-- ===== src/Handlers/Echo.antt =====
-- src/echo_request_handler.cc
use web_server_development.Prelude.{Bool, true, false, ◌++◌, if◌then◌else◌, [], ◌∷◌, length}
use web_server_development.Text.{Bytes, codes}
use web_server_development.Text.Numbers.{to_string}
use web_server_development.Request.{Request, Method, get, post, put, head, invalid}
use web_server_development.Response.{
  Response, empty_response, okay, set_code, add_header, add_body, make_400_error,
  make_date_servername_headers, header_lines, crlf,
}
use web_server_development.World.{World}

abbrev pub is_invalid : Method → Bool
is_invalid invalid = true
is_invalid _ = false

-- `methods[req.method_]`; the array has no text for `INVALID`, which the caller excludes.
abbrev pub method_name : Method → Bytes
method_name get = codes "GET"
method_name post = codes "POST"
method_name put = codes "PUT"
method_name head = codes "HEAD"
method_name invalid = []

-- The body that the handler sends back
unfoldable pub echo_text : Request → Bytes
unfolding header_lines
echo_text q =
    method_name q.method
    ++ (b' '
        ∷ (q.uri ++ (b' ' ∷ (q.version ++ (crlf ++ (header_lines q.headers ++ (crlf ++ q.body)))))))

unfoldable pub handle_echo : World → Request → Response
unfolding echo_text make_400_error make_date_servername_headers
handle_echo w q =
    let text = echo_text q in
    let found = add_body text (
      add_header (codes "Content-Length") (to_string (length text))
        (add_header (codes "Content-Type") (codes "text/plain") (set_code okay empty_response))) in
    make_date_servername_headers w
      (if is_invalid q.method then make_400_error empty_response else found)

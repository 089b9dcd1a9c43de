-- ===== src/Log.antt =====
-- src/log_helper.cc: the messages. How Boost.Log stamps, filters and stores them is not modelled.
use web_server_development.Prelude.{
  [], ◌∷◌, ◌++◌, Option, none, some, List, Result, ok, throws, system_error, ℕ,
}
use web_server_development.Text.{Bytes, codes}
use web_server_development.Text.Numbers.{to_string}
use web_server_development.StdMap.{StdMap}
use web_server_development.Request.{Request, Method, get, post, put, head, invalid}
use web_server_development.Response.{Response, StatusCode, bad_req, not_found, okay}
use web_server_development.Config.{Location}

-- The address and port of the peer; `none` where `remote_endpoint` fails.
abbrev pub Remote : Type 0
Remote = Option (Bytes × ℕ)

-- `methods[req.method_]`
abbrev pub method_text : Method → Bytes
method_text get = codes "GET"
method_text post = codes "POST"
method_text put = codes "PUT"
method_text head = codes "HEAD"
method_text invalid = codes "INVALID"

-- `codes[res.code_]`
abbrev pub code_text : StatusCode → Bytes
code_text bad_req = codes "400"
code_text not_found = codes "404"
code_text okay = codes "200"

-- `" " << h.first << ":" << h.second` for each header
header_words : StdMap Bytes → Bytes
header_words [] = []
header_words ((k, v) ∷ m) = b' ' ∷ (k ++ (b':' ∷ (v ++ header_words m)))

unfoldable pub log_request_info : Request → Remote → Result Bytes
unfolding header_words
log_request_info q none = throws system_error
log_request_info q (some (address, port)) = ok (
    codes "Trace: "
    ++ (method_text q.method
        ++ (b' '
            ∷ (q.uri
                ++ (codes " HTTP "
                    ++ (header_words q.headers
                        ++ (codes " IP: " ++ (address ++ (codes " Port: " ++ to_string port)))))))))

-- `all handlers: ` with the name and the uri of each location
unfoldable pub location_words : List Location → Bytes
location_words [] = []
location_words (l ∷ ls) = l.handler_name ++ (b' ' ∷ (l.uri ++ (b' ' ∷ location_words ls)))

unfoldable pub log_all_handlers : List Location → Bytes
unfolding location_words
log_all_handlers ls = codes "all handlers: " ++ location_words ls

abbrev address_text : Remote → Bytes
address_text none = codes "Failed to get the remote endpoint of the socket"
address_text (some (address, port)) = address

unfoldable pub log_metrics : Request → Response → Remote → Bytes → Bytes
log_metrics q r remote handler_name =
    codes "ResponseMetrics: "
    ++ (codes " Response code : "
        ++ (code_text r.code
            ++ (codes " Request path: "
                ++ (q.uri
                    ++ (codes " IP: "
                        ++ (address_text remote
                            ++ (codes " Matched request handler name: " ++ handler_name)))))))

abbrev pub log_response_sent : Bytes
log_response_sent = codes "Response Sent"

unfoldable pub log_response_info : Request → Response → Bytes
log_response_info q r = codes "Trace: " ++ (code_text r.code ++ (codes " for request: " ++ q.uri))

abbrev pub log_trace_file : Bytes → Bytes
log_trace_file trace_message = codes "Trace: " ++ trace_message

abbrev pub log_error_file : Bytes → Bytes
log_error_file error_message = codes "Error: " ++ error_message

abbrev pub log_warning_file : Bytes → Bytes
log_warning_file warning_message = codes "Warning: " ++ warning_message

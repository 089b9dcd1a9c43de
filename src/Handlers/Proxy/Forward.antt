-- ===== src/Handlers/Proxy/Forward.antt =====
-- src/reverse_proxy_request_handler.cc: `get_proxy_request` and `request_to_string`.
use web_server_development.Prelude.{◌∷◌, ◌++◌, Result, ok, throws, undefined, ◌>>=◌}
use web_server_development.Text.{Bytes, codes}
use web_server_development.StdMap.{assign, erase}
use web_server_development.Request.{Request, Method, get, post, put, head, invalid}
use web_server_development.Response.{header_lines, crlf}
use web_server_development.Handlers.Proxy.Url.{Url}

unfoldable pub get_proxy_request : Request → Url → Request
unfolding assign erase
get_proxy_request q dest = record {
  method = q.method;
  uri = dest.path ++ dest.query;
  version = codes "HTTP/1.0";
  headers =
      assign (codes "Host") dest.host
        (assign (codes "Accept-Encoding") (codes "*/*") (erase (codes "Connection") q.headers));
  body = q.body;
}

-- `methods[req.method_]`, for an array of four
abbrev pub method_word : Method → Result Bytes
method_word get = ok (codes "GET")
method_word post = ok (codes "POST")
method_word put = ok (codes "PUT")
method_word head = ok (codes "HEAD")
method_word invalid = throws undefined

unfoldable pub request_to_string : Request → Result Bytes
unfolding header_lines
request_to_string q = do
  word ← method_word q.method
  ok (
      word
      ++ (b' '
          ∷ (q.uri
              ++ (b' '
                  ∷ (q.version
                      ++ (crlf ++ (header_lines q.headers ++ (q.body ++ (crlf ++ crlf)))))))))

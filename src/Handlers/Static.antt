-- ===== src/Handlers/Static.antt =====
-- src/static_request_handler.cc
use web_server_development.Prelude.{
  ◌+◌, ◌||◌, [], ◌++◌, Option, none, some, Result, ok, ◌>>=◌, if◌then◌else◌, length,
}
use web_server_development.Text.{
  Bytes, codes, equal, is_empty, substr, substr_from, compare_at, sub_size,
}
use web_server_development.Text.Numbers.{to_string}
use web_server_development.Text.Search.{rfind_text}
use web_server_development.Config.{NginxConfig, get_value_from_statement}
use web_server_development.Request.{Request}
use web_server_development.Response.{
  Response, empty_response, okay, set_code, add_header, add_body, make_404_error,
  make_date_servername_headers,
}
use web_server_development.World.{World}

pub record StaticHandler : Type 0 where
  pub root : Bytes
  pub prefix : Bytes

-- `if (s.compare(s.length() - 1, 1, "/") != 0) s + "/" else s`
unfoldable pub end_with_slash : Bytes → Result Bytes
unfolding compare_at
end_with_slash s = do
  slash ← compare_at s (sub_size (length s) 1) 1 (codes "/")
  ok (if slash then s else s ++ codes "/")

-- The constructor
unfoldable pub make_static : NginxConfig → Bytes → Result StaticHandler
unfolding end_with_slash get_value_from_statement substr
make_static config prefix_uri = do
  value ← get_value_from_statement (codes "root") config
  root_uri ← (if is_empty value then ok (codes ".") else substr value 1 (sub_size (length value) 2))
  root ← end_with_slash root_uri
  prefix ← end_with_slash prefix_uri
  ok (record { root = root; prefix = prefix })

-- The rest of the uri behind the last occurrence of the prefix, empty if there is none
unfoldable pub get_file_name : StaticHandler → Bytes → Result Bytes
unfolding rfind_text substr_from
get_file_name h uri = elim (rfind_text h.prefix uri) [
  | none ↦ ok []
  | some i ↦ substr_from uri (i + length h.prefix)
]

unfoldable pub extension_to_type : Bytes → Bytes
unfolding equal
extension_to_type e =
    if equal e (codes ".zip")
    then codes "application/zip"
    else if equal e (codes ".txt")
    then codes "text/plain"
    else if equal e (codes ".jpg")
    then codes "image/jpeg"
    else if equal e (codes ".png")
    then codes "image/png"
    else if equal e (codes ".html") || equal e (codes ".htm")
    then codes "text/html"
    else if equal e (codes ".pdf")
    then codes "application/pdf"
    else if equal e (codes ".zip")
    then codes "application/zip"
    else codes "application/octet-stream"

-- `file_path.substr(file_path.rfind("."))`, or empty
unfoldable pub extension : Bytes → Result Bytes
unfolding rfind_text substr_from
extension path = elim (rfind_text (codes ".") path) [ none ↦ ok [] | some i ↦ substr_from path i ]

-- `none` for `false`
unfoldable pub file_to_body : World → Bytes → Response → Result (Option Response)
unfolding extension extension_to_type
file_to_body w path r = elim (w.file path) [
  | none ↦ ok none
  | some content ↦ do
    e ← extension path
    ok (
        some (
          add_header (codes "Content-Length") (to_string (length content))
            (add_header (codes "Content-Type") (extension_to_type e) (add_body content r))))
]

unfoldable pub handle_static : World → StaticHandler → Request → Result Response
unfolding get_file_name file_to_body make_404_error make_date_servername_headers
handle_static w h q = do
  filename ← get_file_name h q.uri
  let missing = make_404_error w empty_response
  let opened = file_to_body w (h.root ++ filename) (set_code okay empty_response)
  served ← (if is_empty filename then ok none else opened)
  ok (elim served [ none ↦ missing | some r ↦ make_date_servername_headers w r ])

-- ===== src/Response.antt =====
-- include/response.h, src/response.cc: the response and its builder. The builder's methods are
-- functions on the response that it holds; `build` gives the two buffers that are written.
pub mod Laws
use web_server_development.Prelude.{[], ◌∷◌, ◌++◌, none, some, length}
use web_server_development.Text.{Bytes, codes}
use web_server_development.Text.Numbers.{to_string}
use web_server_development.StdMap.{StdMap, assign}
use web_server_development.World.{World}

pub data StatusCode : Type 0 where
  bad_req not_found okay : StatusCode

pub record Response : Type 0 where
  pub code : StatusCode
  pub headers : StdMap Bytes
  pub body : Bytes

-- `response{}`. The source leaves `code_` open here, and sets it before it is read.
abbrev pub empty_response : Response
empty_response = record { code = bad_req; headers = []; body = [] }

abbrev pub set_code : StatusCode → Response → Response
set_code c r = record r { code = c }

abbrev pub add_header : Bytes → Bytes → Response → Response
add_header k v r = record r { headers = assign k v r.headers }

abbrev pub add_body : Bytes → Response → Response
add_body b r = record r { body = b }

unfoldable pub make_400_error : Response → Response
make_400_error r =
    add_body [] (add_header (codes "Content-Length") (codes "0") (set_code bad_req r))

-- The body of `404page.html`, empty if the file does not open.
abbrev not_found_page : World → Bytes
not_found_page w = elim (w.file (codes "404page.html")) [ none ↦ [] | some text ↦ text ]

unfoldable pub make_404_error : World → Response → Response
make_404_error w r =
    let page = not_found_page w in
    add_header (codes "Content-Length") (to_string (length page))
      (add_header (codes "Content-Type") (codes "text/html") (add_body page (set_code not_found r)))

unfoldable pub make_date_servername_headers : World → Response → Response
make_date_servername_headers w r =
    add_header (codes "Server") (codes "WNZA") (add_header (codes "Date") w.date r)

abbrev pub crlf : Bytes
crlf = b'\r' ∷ b'\n' ∷ []

-- `first + ": " + second + "\r\n"` for each header, in the map's order
unfoldable pub header_lines : StdMap Bytes → Bytes
header_lines [] = []
header_lines ((k, v) ∷ m) = k ++ (codes ": " ++ (v ++ (crlf ++ header_lines m)))

abbrev pub status_text : StatusCode → Bytes
status_text okay = codes "200 OK"
status_text bad_req = codes "400 Bad Request"
status_text not_found = codes "404 Not Found"

unfoldable pub build : Response → Bytes × Bytes
unfolding header_lines
build r = (
  codes "HTTP/1.1 " ++ (status_text r.code ++ (crlf ++ (header_lines r.headers ++ crlf))),
  r.body,
)

-- ===== src/Handlers/Proxy/Looping.antt =====
-- src/reverse_proxy_request_handler.cc: a host that redirects to itself.
use web_server_development.Prelude.{false, ◌∷◌, ◌++◌, some, ◌≡◌, refl}
use web_server_development.Text.{Bytes, codes, equal, push_back}
use web_server_development.Text.Cut.{lower}
use web_server_development.Text.Numbers.{digits_value}
use web_server_development.Text.Stream.{
  read_word, read_unsigned, get_line, skip_spaces, span, read_signed, read_digits, cut_line,
}
use web_server_development.Request.{Request}
use web_server_development.World.{World}
use web_server_development.Handlers.Proxy.Url.{Url}
use web_server_development.Handlers.Proxy.Exchange.{read_status}

-- A url with a query
abbrev pub url_of : Bytes → Bytes → Bytes → Bytes
url_of host path query = codes "http://" ++ (host ++ (b'/' ∷ (path ++ (b'?' ∷ query))))

-- What a host answers that redirects to it
abbrev pub found_text : Bytes → Bytes
found_text url = codes "HTTP/1.1 302 Found\r\n" ++ (codes "Location: " ++ (url ++ codes "\r\n\r\n"))

-- Its header, without the line feed
abbrev location_line : Bytes → Bytes
location_line url = push_back (codes "Location: " ++ url) b'\r'

read_status_found :
    (rest : Bytes)
    → read_status (codes "HTTP/1.1 302 Found\r\n" ++ rest)
      ≡ some (302, record { left = rest; eof = false; failed = false })
unfolding read_status read_word read_unsigned get_line skip_spaces span read_signed read_digits
    cut_line digits_value equal
read_status_found rest = refl

module _ (host path query : Bytes) where
  abbrev pub url : Bytes
  url = url_of host path query

  -- The url as the proxy reads it
  abbrev pub here : Url
  here = record { host = lower host; path = b'/' ∷ path; query = query }

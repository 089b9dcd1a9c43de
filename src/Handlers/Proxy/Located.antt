-- ===== src/Handlers/Proxy/Located.antt =====
-- What the proxy reads of a url, and where a redirection to one leads.
use web_server_development.Prelude.{
  ◌+◌, true, false, ◌&&◌, ◌∷◌, ◌++◌, ◌≡◌, refl, ◌∙◌, sym, ap, ap₂, length, drop, length-append,
  drop-length-append, append_assoc,
}
use web_server_development.Text.{Bytes, codes, equal}
use web_server_development.Text.Cut.{until, onward, until-append, onward-append, lower}
use web_server_development.Text.Search.{lacks, find_text, is_prefix, find_text-behind}
use web_server_development.Request.{Request}
use web_server_development.World.{World}
use web_server_development.Handlers.Proxy.Url.{Url, parse_rest, parse_url}
use web_server_development.Handlers.Proxy.Forward.{get_proxy_request}
use web_server_development.Handlers.Proxy.Exchange.{redirects, with_protocol, handle_redirect}

parse_rest-parts :
    (host path query : Bytes)
    → lacks b'/' host ≡ true
    → lacks b'?' path ≡ true
    → parse_rest (host ++ (b'/' ∷ (path ++ (b'?' ∷ query))))
      ≡ record { host = lower host; path = b'/' ∷ path; query = query }
unfolding parse_rest until onward
parse_rest-parts host path query no_slash no_mark =
    rw (until-append b'/' host (path ++ (b'?' ∷ query)) no_slash) (
      rw (onward-append b'/' host (path ++ (b'?' ∷ query)) no_slash) (
        rw (until-append b'?' path query no_mark)
          (rw (onward-append b'?' path query no_mark) refl)))

-- A url is cut at the slash behind its host and at the question mark behind its path. The
-- protocol has no colon, the host no slash, and the path, which begins with a slash, no question
-- mark.
pub parse_url-parts :
    (protocol host path query : Bytes)
    → lacks b':' protocol ≡ true
    → lacks b'/' host ≡ true
    → lacks b'?' path ≡ true
    → parse_url (protocol ++ (codes "://" ++ (host ++ (b'/' ∷ (path ++ (b'?' ∷ query))))))
      ≡ record { host = lower host; path = b'/' ∷ path; query = query }
unfolding parse_url
parse_url-parts protocol host path query no_colon no_slash no_mark =
    let named = host ++ (b'/' ∷ (path ++ (b'?' ∷ query))) in
    let behind : drop (length protocol + 3) (protocol ++ (codes "://" ++ named)) ≡ named =
      ap₂ drop (sym (length-append protocol (codes "://")))
        (sym (append_assoc protocol (codes "://") named))
      ∙ drop-length-append (protocol ++ codes "://") named in
    rw (find_text-behind b':' (codes "//") protocol named no_colon, parse_url)
      (ap parse_rest behind ∙ parse_rest-parts host path query no_slash no_mark)

with_protocol-http : (s : Bytes) → with_protocol (codes "http://" ++ s) ≡ codes "http://" ++ s
unfolding with_protocol is_prefix find_text
with_protocol-http s = refl

handle_redirect-url :
    (w : World) (q : Request) (location : Bytes) (redir_loc prev_loc : Url)
    → parse_url (with_protocol location) ≡ redir_loc
    → (equal redir_loc.host prev_loc.host && equal redir_loc.path prev_loc.path) ≡ false
    → handle_redirect w q location prev_loc
      ≡ redirects (get_proxy_request q redir_loc) redir_loc.host
unfolding handle_redirect
handle_redirect-url w q location redir_loc prev_loc located other =
    rw (located, handle_redirect) (rw other refl)

-- A redirection to a url with a query is followed to its host, in lower case, and asks for its path
-- and query without the question mark between them, unless the host and the path are those that
-- the request itself was sent for. The host has no slash and the path no question mark.
pub handle_redirect-query :
    (w : World) (q : Request) (host path query : Bytes) (prev_loc : Url)
    → lacks b'/' host ≡ true
    → lacks b'?' path ≡ true
    → (equal (lower host) prev_loc.host && equal (b'/' ∷ path) prev_loc.path) ≡ false
    → handle_redirect w q (codes "http://" ++ (host ++ (b'/' ∷ (path ++ (b'?' ∷ query))))) prev_loc
      ≡ redirects
          (get_proxy_request q (record { host = lower host; path = b'/' ∷ path; query = query }))
          (lower host)
handle_redirect-query w q host path query prev_loc no_slash no_mark other =
    let location = codes "http://" ++ (host ++ (b'/' ∷ (path ++ (b'?' ∷ query)))) in
    let located : parse_url (with_protocol location)
        ≡ record { host = lower host; path = b'/' ∷ path; query = query } =
      ap parse_url (with_protocol-http (host ++ (b'/' ∷ (path ++ (b'?' ∷ query)))))
      ∙ parse_url-parts (codes "http") host path query refl no_slash no_mark in
    handle_redirect-url w q location _ prev_loc located other

-- ===== src/Handlers/Proxy.antt =====
-- include/reverse_proxy_request_handler.h, src/reverse_proxy_request_handler.cc: the handler itself.
-- Its children are about the urls, the requests that it sends, and the exchange with the other host.
pub mod Url
pub mod Forward
pub mod Exchange
pub mod Sent
pub mod Redirects
pub mod Looping
pub mod Prefix
pub mod Located
pub mod Fields
pub mod Chunks
pub mod Relayed
pub mod Exchanged
pub mod Lengths
mod Tests
use web_server_development.Prelude.{
  ℕ, ◌+◌, ◌-◌, ◌||◌, Bool, true, false, [], ◌∷◌, ◌++◌, Option, none, some, Result, ok, throws,
  undefined, ◌>>=◌, if◌then◌else◌, length,
}
use web_server_development.Text.{
  Bytes, codes, equal, is_empty, substr, substr_from, sub_size, pop_back,
}
use web_server_development.Text.Search.{find_text}
use web_server_development.Config.{NginxConfig, get_value_from_statement}
use web_server_development.Request.{Request}
use web_server_development.Response.{Response, empty_response, make_404_error}
use web_server_development.World.{World}
use web_server_development.Handlers.Static.{end_with_slash}
use web_server_development.Handlers.Proxy.Url.{parse_url}
use web_server_development.Handlers.Proxy.Forward.{get_proxy_request}
use web_server_development.Handlers.Proxy.Exchange.{Network, send_request, throw_400_error}

pub record ProxyHandler : Type 0 where
  pub prefix : Bytes
  pub dest : Bytes
  pub port : Bytes
  pub host : Bytes
  pub path : Bytes

-- The constructor. The prefix and the destination are made to end in a slash as the static
-- handler's are.
unfoldable pub make_proxy : NginxConfig → Bytes → Result ProxyHandler
unfolding end_with_slash get_value_from_statement substr parse_url
make_proxy config prefix_uri = do
  prefix ← end_with_slash prefix_uri
  value ← get_value_from_statement (codes "dest") config
  bare ← substr value 1 (sub_size (length value) 2)
  dest ← end_with_slash bare
  port ← get_value_from_statement (codes "port") config
  let loc = parse_url dest
  ok (record {
    prefix = prefix;
    dest = dest;
    port = if is_empty port then codes "80" else port;
    host = loc.host;
    path = loc.path;
  })

-- `new_uri`, for a uri with the prefix at `index`
unfoldable pub forwarded_uri : ProxyHandler → Bytes → ℕ → Result Bytes
unfolding substr_from pop_back equal
forwarded_uri h uri index = do
  new_uri ← substr_from uri (index + length h.prefix - 1)
  if equal new_uri (codes "/") then ok new_uri else pop_back new_uri

module _ (w : World) (net : Network) (fuel : ℕ) (h : ProxyHandler) (q : Request) where
  -- The branch of a uri that has the prefix
  unfoldable pub forward : Bytes → ℕ → Option (Result Response)
  unfolding forwarded_uri get_proxy_request send_request
  forward uri index = elim (forwarded_uri h uri index) [
    | throws e ↦ some (throws e)
    | ok new_uri ↦
        send_request w net h.prefix h.port fuel
          (get_proxy_request q (record { host = h.host; path = new_uri; query = [] })) h.host
  ]

  -- The search for the prefix
  unfoldable pub search_prefix : Bytes → Option (Result Response)
  unfolding find_text forward
  search_prefix uri = elim (find_text h.prefix uri) [
    | none ↦ some (ok (make_404_error w empty_response))
    | some index ↦ forward uri index
  ]

  -- `handle_request`; `none` says that the redirects have not ended when the fuel is spent.
  unfoldable pub handle_proxy : Option (Result Response)
  unfolding end_with_slash search_prefix throw_400_error
  handle_proxy =
      if is_empty h.host || is_empty h.path
      then some (ok (throw_400_error w))
      else elim (end_with_slash q.uri) [ throws e ↦ some (throws e) | ok uri ↦ search_prefix uri ]

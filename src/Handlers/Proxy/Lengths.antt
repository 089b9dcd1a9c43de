-- ===== src/Handlers/Proxy/Lengths.antt =====
-- Every response of the proxy carries the length of its body.
use mathlib.Core.Option.{some-injective}
use web_server_development.Prelude.{
  ℕ, ◌||◌, [], some, ◌≡◌, subst, ok, throws, Fault, ◌≢◌, Bool-cases, Result-cases, Option-cases,
  inl, inr,
}
use web_server_development.Text.{Bytes, is_empty}
use web_server_development.Text.Search.{find_text}
use web_server_development.Request.{Request}
use web_server_development.Response.{Response, empty_response, make_404_error}
use web_server_development.Response.Laws.{HasLength, make_404_error-HasLength}
use web_server_development.World.{World}
use web_server_development.Handlers.Static.{end_with_slash}
use web_server_development.Handlers.Proxy.Exchanged.{
  IsMeasuredResult, throw_400_error-HasLength, send_request-HasLength,
}
use web_server_development.Handlers.Proxy.{
  ProxyHandler, forward, forwarded_uri, search_prefix, handle_proxy,
}
use web_server_development.Handlers.Proxy.Forward.{get_proxy_request}
use web_server_development.Handlers.Proxy.Exchange.{Network, throw_400_error}

forward-HasLength :
    (w : World) (net : Network) (fuel : ℕ) (h : ProxyHandler) (q : Request) (uri : Bytes)
    (index : ℕ) {r : Response}
    → forward w net fuel h q uri index ≡ some (ok r)
    → HasLength r
unfolding forward
forward-HasLength w net fuel h q uri index {r} e = elim (Result-cases (forwarded_uri h uri index)) [
  | inl (x, failed) ↦ absurd (no_response x (rw (failed, forward) at e))
  | inr (new_uri, cut) ↦
      send_request-HasLength w net h.prefix h.port fuel
        (get_proxy_request q (record { host = h.host; path = new_uri; query = [] })) h.host
        (rw (cut, forward) at e)
]
  where
    no_response : (x : Fault) → some (throws x) ≢ some (ok r)
    no_response x e = cc

search_prefix-HasLength :
    (w : World) (net : Network) (fuel : ℕ) (h : ProxyHandler) (q : Request) (uri : Bytes)
    {r : Response}
    → search_prefix w net fuel h q uri ≡ some (ok r)
    → HasLength r
unfolding search_prefix
search_prefix-HasLength w net fuel h q uri {r} e = elim (Option-cases (find_text h.prefix uri)) [
  | inl absent ↦
      subst IsMeasuredResult
        (some-injective (ok (make_404_error w empty_response)) (ok r)
          (rw (absent, search_prefix) at e))
        (make_404_error-HasLength w empty_response)
  | inr (index, found) ↦ forward-HasLength w net fuel h q uri index (rw (found, search_prefix) at e)
]

-- Every response of the reverse proxy has a Content-Length header that tells the length of its body
-- in decimal, whatever the network answers and however many redirections are followed.
pub handle_proxy-HasLength :
    (w : World) (net : Network) (fuel : ℕ) (h : ProxyHandler) (q : Request) {r : Response}
    → handle_proxy w net fuel h q ≡ some (ok r)
    → HasLength r
unfolding handle_proxy
handle_proxy-HasLength w net fuel h q {r} e =
    elim (Bool-cases (is_empty h.host || is_empty h.path)) [
      | inl unset ↦
          subst IsMeasuredResult
            (some-injective (ok (throw_400_error w)) (ok r) (rw (unset, handle_proxy) at e))
            (throw_400_error-HasLength w)
      | inr set ↦ elim (Result-cases (end_with_slash q.uri)) [
        | inl (x, failed) ↦ absurd (no_response x (rw failed at (rw (set, handle_proxy) at e)))
        | inr (uri, closed) ↦
            search_prefix-HasLength w net fuel h q uri (rw closed at (rw (set, handle_proxy) at e))
      ]
    ]
  where
    no_response : (x : Fault) → some (throws x) ≢ some (ok r)
    no_response x e = cc

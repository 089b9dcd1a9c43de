-- ===== src/Server/Measured.antt =====
-- The responses of all handlers that the server makes of its configuration tell their lengths.
use web_server_development.Prelude.{
  ℕ, Bool, true, false, ◌||◌, List, [], ◌∷◌, Option, none, some, ◌≡◌, inl, inr, subst, Result, ok,
  >>=-eq-ok, Option-cases, All, ok-injective, ap, if◌then◌else◌,
}
use web_server_development.Text.{Bytes, codes, is_empty}
use web_server_development.StdMap.Laws.{All-insert}
use web_server_development.Response.{Response}
use web_server_development.Response.Laws.{HasLength}
use web_server_development.World.{World}
use web_server_development.Config.{
  NginxConfig, Location, get_value_from_statement, get_location_result,
}
use web_server_development.Handlers.Echo.{handle_echo}
use web_server_development.Handlers.Health.{handle_health, handle_not_found}
use web_server_development.Handlers.Lengths.{
  handle_echo-HasLength, handle_health-HasLength, handle_not_found-HasLength,
}
use web_server_development.Handlers.Static.{make_static}
use web_server_development.Handlers.Serving.{handle_static-HasLength}
use web_server_development.Handlers.Status.Answers.{handle_status-HasLength}
use web_server_development.Handlers.Proxy.{make_proxy, handle_proxy}
use web_server_development.Handlers.Proxy.Exchange.{Network}
use web_server_development.Handlers.Proxy.Lengths.{handle_proxy-HasLength}
use web_server_development.Session.Routing.{RequestHandler, Locations}
use web_server_development.Session.Lengths.{IsMeasured, LocationMeasured}
use web_server_development.Server.{
  HandlerKind, echo, static, status, not_found, proxy, health, kind_of, echo_handler,
  health_handler, not_found_handler, within_stack, init_static, init_proxy, inits, init_location,
  add_request_handler, add_locations, make_locations,
}

echo_handler-IsMeasured : IsMeasured echo_handler
echo_handler-IsMeasured w q r e =
    subst HasLength (ok-injective (handle_echo w q) r e) (handle_echo-HasLength w q)

health_handler-IsMeasured : IsMeasured health_handler
health_handler-IsMeasured w q r e =
    subst HasLength (ok-injective (handle_health w q) r e) (handle_health-HasLength w q)

not_found_handler-IsMeasured : IsMeasured not_found_handler
not_found_handler-IsMeasured w q r e =
    subst HasLength (ok-injective (handle_not_found w q) r e) (handle_not_found-HasLength w q)

-- A choice between the not found handler and one that is measured
choice-IsMeasured :
    (b : Bool) (made : Result RequestHandler) (h : RequestHandler)
    → (made ≡ ok h → IsMeasured h)
    → (if b then ok not_found_handler else made) ≡ ok h
    → IsMeasured h
choice-IsMeasured true made h m e =
    subst IsMeasured (ok-injective not_found_handler h e) not_found_handler-IsMeasured
choice-IsMeasured false made h m e = m e

init_static-IsMeasured :
    (uri : Bytes) (config : NginxConfig) {h : RequestHandler}
    → init_static uri config ≡ ok h
    → IsMeasured h
unfolding init_static
init_static-IsMeasured uri config {h} e =
    let (value, f, e') = >>=-eq-ok (get_value_from_statement (codes "root") config) _ e in
    choice-IsMeasured (is_empty value) _ h
      (λ made.
        let (s, g, e'') = >>=-eq-ok (make_static config uri) _ made in
        subst IsMeasured (ok-injective _ h e'') (λ w q r. handle_static-HasLength w s q))
      e'

within_stack-ok :
    (o : Option (Result Response)) {r : Response} → within_stack o ≡ ok r → o ≡ some (ok r)
within_stack-ok none e = absurd (cc e)
within_stack-ok (some m) e = ap some e

module _ (net : World → Network) (depth : ℕ) where
  init_proxy-IsMeasured :
      (uri : Bytes) (config : NginxConfig) {h : RequestHandler}
      → init_proxy net depth uri config ≡ ok h
      → IsMeasured h
  unfolding init_proxy
  init_proxy-IsMeasured uri config {h} e =
      let (dest, f, e') = >>=-eq-ok (get_value_from_statement (codes "dest") config) _ e in
      choice-IsMeasured (is_empty dest || is_empty uri) _ h
        (λ made.
          let (p, g, e'') = >>=-eq-ok (make_proxy config uri) _ made in
          subst IsMeasured (ok-injective _ h e'') (λ w q r answered.
            handle_proxy-HasLength w (net w) depth p q
              (within_stack-ok (handle_proxy w (net w) depth p q) answered)))
        e'

  inits-IsMeasured :
      (k : HandlerKind) (uri : Bytes) (config : NginxConfig) {h : RequestHandler}
      → inits net depth k uri config ≡ ok h
      → IsMeasured h
  unfolding inits
  inits-IsMeasured echo uri config e = subst IsMeasured (ok-injective _ _ e) echo_handler-IsMeasured
  inits-IsMeasured static uri config e = init_static-IsMeasured uri config e
  inits-IsMeasured status uri config e =
      subst IsMeasured (ok-injective _ _ e) (λ w q r. handle_status-HasLength w)
  inits-IsMeasured not_found uri config e =
      subst IsMeasured (ok-injective _ _ e) not_found_handler-IsMeasured
  inits-IsMeasured proxy uri config e = init_proxy-IsMeasured uri config e
  inits-IsMeasured health uri config e =
      subst IsMeasured (ok-injective _ _ e) health_handler-IsMeasured

  init_location-IsMeasured :
      (k : HandlerKind) (l : Location) {h : RequestHandler}
      → init_location (inits net depth) k l ≡ ok h
      → IsMeasured h
  unfolding init_location
  init_location-IsMeasured k l e = elim (Option-cases l.block_config) [
    | inl missing ↦ absurd (cc (rw (missing, init_location) at e))
    | inr (c, given) ↦ inits-IsMeasured k l.uri c (rw (given, init_location) at e)
  ]

  add_locations-Measured :
      (ls : List Location) (m : Locations) {m' : Locations}
      → All LocationMeasured m
      → add_locations (inits net depth) ls m ≡ ok m'
      → All LocationMeasured m'
  unfolding add_locations add_request_handler
  add_locations-Measured [] m a e = subst (All LocationMeasured) (ok-injective _ _ e) a
  add_locations-Measured (l ∷ ls) m a e = elim (Option-cases (kind_of l.handler_name)) [
    | inl unknown ↦ add_locations-Measured ls m a (rw (unknown, add_locations) at e)
    | inr (k, known) ↦
        let (m₁, f, e') =
          >>=-eq-ok (add_request_handler (inits net depth) k l m)
            (add_locations (inits net depth) ls) (rw (known, add_locations) at e) in
        let (h, g, i) = >>=-eq-ok (init_location (inits net depth) k l) _ f in
        add_locations-Measured ls m₁
          (subst (All LocationMeasured) (ok-injective _ _ i)
            (All-insert LocationMeasured l.uri h m (init_location-IsMeasured k l g) a))
          e'
  ]

-- Whatever the configuration, every handler that the server makes of it, those of the files, of the
-- status page and of the proxy included, tells the length of the body in all its responses, as
-- `process_req` needs for the responses of the sessions.
pub make_locations-Measured :
    (net : World → Network) (depth : ℕ) (config : NginxConfig) {m : Locations}
    → make_locations (inits net depth) config ≡ ok m
    → All LocationMeasured m
unfolding make_locations
make_locations-Measured net depth config e =
    let (ls, f, e') =
      >>=-eq-ok (get_location_result config) (λ ls. add_locations (inits net depth) ls []) e in
    add_locations-Measured net depth ls [] tt e'

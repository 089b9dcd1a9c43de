-- ===== src/Session/Lengths.antt =====
-- Every response that a session sends tells the length of its body, the cached ones too.
use web_server_development.Prelude.{
  ◌≡◌, inl, inr, subst, ok, >>=-eq-ok, if◌then◌else◌, Bool-cases, Option-cases, All, ok-injective,
}
use web_server_development.Text.{Bytes, codes, equal}
use web_server_development.StdMap.{find}
use web_server_development.StdMap.Laws.{All-assign, All-find}
use web_server_development.Request.{Request}
use web_server_development.Response.{Response, empty_response}
use web_server_development.Response.Laws.{HasLength, make_400_error-HasLength}
use web_server_development.Handlers.Echo.{is_invalid}
use web_server_development.World.{World}
use web_server_development.Log.{Remote}
use web_server_development.Session.Routing.{
  RequestHandler, Locations, Shared, no_match, select, handler_at, run_handler, route, process_req,
}

-- A handler whose responses carry the length of their bodies
abbrev pub IsMeasured : RequestHandler → Type 0
IsMeasured h = (w : World) (q : Request) (r : Response) → h.handle_request w q ≡ ok r → HasLength r

abbrev pub LocationMeasured : Bytes × RequestHandler → Type 0
LocationMeasured (key, h) = IsMeasured h

abbrev pub EntryMeasured : Bytes × Response → Type 0
EntryMeasured (key, r) = HasLength r

handler_at-IsMeasured :
    (locations : Locations) (key : Bytes) (h : RequestHandler)
    → All LocationMeasured locations
    → handler_at key locations ≡ ok h
    → IsMeasured h
unfolding handler_at
handler_at-IsMeasured locations key h m e = elim (Option-cases (find key locations)) [
  | inl absent ↦ absurd (cc (rw (absent, handler_at) at e))
  | inr (v, present) ↦
      let same = ok-injective v h (rw (present, handler_at) at e) in
      subst IsMeasured same (All-find LocationMeasured key locations m present)
]

module _ (locations : Locations) (remote : Remote) (q : Request) (s : Shared) where
  -- The answer and the cache are measured.
  abbrev pub Measured : Response → Shared → Type 0
  Measured r s' = HasLength r × All EntryMeasured s'.cache_query

  run_handler-Measured :
      (key : Bytes) {r : Response} {s' : Shared}
      → All LocationMeasured locations
      → All EntryMeasured s.cache_query
      → run_handler locations remote q key s ≡ ok (r, s')
      → Measured r s'
  unfolding run_handler
  run_handler-Measured key m a e =
      let (h, f, e') = >>=-eq-ok (handler_at key locations) _ e in
      let (r', g, e'') = >>=-eq-ok (h.handle_request (s.machines 0) q) _ e' in
      subst (λ (t : Response × Shared). Measured t.0 t.1) (ok-injective _ _ e'')
        (
          handler_at-IsMeasured locations key h m f (s.machines 0) q r' g,
          All-assign EntryMeasured q.uri r' s.cache_query
              (handler_at-IsMeasured locations key h m f (s.machines 0) q r' g) a,
        )

  route-Measured :
      {r : Response} {s' : Shared}
      → All LocationMeasured locations
      → All EntryMeasured s.cache_query
      → route locations remote q s ≡ ok (r, s')
      → Measured r s'
  unfolding route
  route-Measured m a e =
      let (b, f, e') =
        >>=-eq-ok (if is_invalid q.method then ok no_match else select q.uri locations no_match) _
          e in
      elim (Bool-cases b.matched) [
        | inl t ↦ run_handler-Measured b.max_matched_key m a (rw t at e')
        | inr n ↦
            subst (λ (t : Response × Shared). Measured t.0 t.1) (ok-injective _ _ (rw n at e'))
              (make_400_error-HasLength empty_response, a)
      ]

-- If every handler's responses tell the length of their bodies, and every cached response does,
-- then the response to any request does, and so does every response cached afterwards.
pub process_req-Measured :
    (locations : Locations) (remote : Remote) (q : Request) (s : Shared) {r : Response}
    {s' : Shared}
    → All LocationMeasured locations
    → All EntryMeasured s.cache_query
    → process_req locations remote q s ≡ ok (r, s')
    → HasLength r × All EntryMeasured s'.cache_query
unfolding process_req
process_req-Measured locations remote q s m a e =
    elim (Bool-cases (equal q.uri (codes "/status"))) [
      | inl status ↦ route-Measured locations remote q s m a (rw status at e)
      | inr other ↦ elim (Option-cases (find q.uri s.cache_query)) [
        | inl absent ↦
            route-Measured locations remote q s m a (rw (other, absent, process_req) at e)
        | inr (v, present) ↦
            subst (λ (t : Response × Shared). HasLength t.0 × All EntryMeasured t.1.cache_query)
              (ok-injective _ _ (rw (other, present, process_req) at e))
              (All-find EntryMeasured q.uri s.cache_query a present, a)
      ]
    ]

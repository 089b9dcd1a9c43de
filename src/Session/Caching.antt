-- ===== src/Session/Caching.antt =====
-- The cache of responses, which a uri alone indexes.
use web_server_development.Prelude.{
  none, some, ◌≡◌, ◌≢◌, ◌⊎◌, inl, inr, ◌∙◌, sym, ap, ok, >>=-eq-ok, arith, if◌then◌else◌,
  Bool-cases, Option-cases,
}
use web_server_development.Text.{Bytes, codes, equal}
use web_server_development.Text.Laws.{equal_iff, equal_refl}
use web_server_development.StdMap.{find}
use web_server_development.StdMap.Laws.{find-assign}
use web_server_development.Request.{Request}
use web_server_development.Response.{Response}
use web_server_development.Handlers.Echo.{is_invalid}
use web_server_development.Log.{Remote}
use web_server_development.Session.Routing.{
  Locations, Shared, no_match, select, handler_at, run_handler, route, process_req,
}
use web_server_development.Session.Answers.{process_req-cached}

-- What is cached for the uri once a request is answered with `r`: `r`, or what was there before
abbrev Remembers : Bytes → Response → Shared → Shared → Type 0
Remembers uri r s s' = (s' ≡ s) ⊎ (find uri s'.cache_query ≡ some r)

module _ (locations : Locations) (remote : Remote) (q : Request) (s : Shared) where
  run_handler-Remembers :
      (key : Bytes) {r : Response} {s' : Shared}
      → run_handler locations remote q key s ≡ ok (r, s')
      → Remembers q.uri r s s'
  unfolding run_handler
  run_handler-Remembers key {r} e =
      let (h, f, e') = >>=-eq-ok (handler_at key locations) _ e in
      let (r', g, e'') = >>=-eq-ok (h.handle_request (s.machines 0) q) _ e' in
      inr (ground (arith, e'', find-assign q.uri q.uri r' s.cache_query, equal_refl q.uri))

  route-Remembers :
      {r : Response} {s' : Shared}
      → route locations remote q s ≡ ok (r, s')
      → Remembers q.uri r s s'
  unfolding route
  route-Remembers e =
      let (b, f, e') =
        >>=-eq-ok (if is_invalid q.method then ok no_match else select q.uri locations no_match) _
          e in
      elim (Bool-cases b.matched) [
        | inl t ↦ run_handler-Remembers b.max_matched_key (rw t at e')
        | inr n ↦ inl (ground arith)
      ]

  process_req-Remembers :
      {r : Response} {s' : Shared}
      → process_req locations remote q s ≡ ok (r, s')
      → q.uri ≢ codes "/status"
      → Remembers q.uri r s s'
  unfolding process_req
  process_req-Remembers e ne = elim (Bool-cases (equal q.uri (codes "/status"))) [
    | inl status ↦ absurd (ne ((equal_iff q.uri (codes "/status")).0 status))
    | inr other ↦ elim (Option-cases (find q.uri s.cache_query)) [
      | inl absent ↦ route-Remembers (rw (other, absent, process_req) at e)
      | inr (v, present) ↦ inl (ground arith)
    ]
  ]

-- Once a request is answered, if the cache then holds a response for its uri that it did not hold
-- before, that response is the answer, and every later request with the same uri, whatever its
-- method, headers and body, is given it again, with no handler called and nothing logged, until
-- the cache is written again. The uri is not exactly "/status".
pub process_req_repeats :
    (locations locations' : Locations) (remote remote' : Remote) (q q' : Request) (s : Shared)
    {r v : Response} {s' : Shared}
    → q.uri ≢ codes "/status"
    → find q.uri s.cache_query ≡ none
    → process_req locations remote q s ≡ ok (r, s')
    → find q.uri s'.cache_query ≡ some v
    → q'.uri ≡ q.uri
    → (v ≡ r) × (process_req locations' remote' q' s' ≡ ok (r, s'))
process_req_repeats locations locations' remote remote' q q' s {s'} ne absent e present same =
    elim (process_req-Remembers locations remote q s e ne) [
      | inl unchanged ↦ cc (ap (λ (t : Shared). find q.uri t.cache_query) unchanged)
      | inr kept ↦
          (cc, process_req-cached locations' remote' q' s' (λ h. ne (sym same ∙ h)) (rw same kept))
    ]

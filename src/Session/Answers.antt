-- ===== src/Session/Answers.antt =====
-- What a session answers: by a handler, by the cache, or by itself.
use web_server_development.Prelude.{
  suc, true, false, [], ◌∷◌, ◌++◌, none, some, ◌≡◌, refl, ◌≢◌, ◌⊎◌, inl, inr, ◌∙◌, sym, subst,
  Result, ok, ◌>>=◌, arith, Bool-cases,
}
use web_server_development.Text.{Bytes, codes, equal}
use web_server_development.Text.Laws.{equal_iff}
use web_server_development.StdMap.{StdMap, find, assign}
use web_server_development.Request.{Request, invalid, Method}
use web_server_development.Response.{Response, empty_response, make_400_error}
use web_server_development.Handlers.Echo.{is_invalid}
use web_server_development.Log.{Remote, log_metrics}
use web_server_development.Session.Routing.{
  RequestHandler, Locations, Best, Shared, no_match, select, handler_at, run_handler, route,
  process_req,
}
use web_server_development.Session.Selection.{
  HasKey, NoEmptyKey, IsLongestMatch, NoneMatches, Chosen, found, missed, select-Chosen,
}

is_invalid-false : (m : Method) → m ≢ invalid → is_invalid m ≡ false
is_invalid-false Method.get ne = refl
is_invalid-false Method.post ne = refl
is_invalid-false Method.put ne = refl
is_invalid-false Method.head ne = refl
is_invalid-false invalid ne = absurd (ne refl)

-- What `process_req` does with a request that the cache does not answer
pub data Routed (locations : Locations) (remote : Remote) (q : Request) (s : Shared)
    (outcome : Result (Response × Shared)) : Type 0 where
  -- A longest location that takes the uri has a handler, which answers; its response is cached
  -- under the uri, and the metrics are logged.
  handled :
      (key : Bytes) (h : RequestHandler)
      → IsLongestMatch q.uri locations key
      → find key locations ≡ some h
      → outcome ≡ (do
        r ← h.handle_request (s.machines 0) q
        ok (
          r,
          record {
            cache_query = assign q.uri r s.cache_query;
            log = s.log ++ log_metrics q r remote h.handler_name ∷ [];
            machines = λ n. s.machines (suc n);
          },
        ))
      → Routed locations remote q s outcome
  -- No location takes the uri: error 400, and nothing else changes.
  unrouted :
      NoneMatches q.uri locations
      → outcome ≡ ok (make_400_error empty_response, s)
      → Routed locations remote q s outcome

find-HasKey {ℓ} :
    {V : Type ℓ} (k : Bytes) (m : StdMap V) → HasKey k m → (v : V) × (find k m ≡ some v)
unfolding find
find-HasKey k [] h = absurd h
find-HasKey k ((j, w) ∷ m) (inl e) = (w, ground (arith, equal_iff j k))
find-HasKey k ((j, w) ∷ m) (inr h) = elim (Bool-cases (equal j k)) [
  | inl same ↦ (w, rw same)
  | inr other ↦ let (v, e) = find-HasKey k m h in (v, rw other e)
]

run_handler-find :
    (locations : Locations) (remote : Remote) (q : Request) (key : Bytes) (s : Shared)
    {h : RequestHandler}
    → find key locations ≡ some h
    → run_handler locations remote q key s ≡ (do
      r ← h.handle_request (s.machines 0) q
      ok (
        r,
        record {
          cache_query = assign q.uri r s.cache_query;
          log = s.log ++ log_metrics q r remote h.handler_name ∷ [];
          machines = λ n. s.machines (suc n);
        },
      ))
unfolding run_handler
run_handler-find locations remote q key s e = rw (e, handler_at)

module _ (locations : Locations) (remote : Remote) (q : Request) (s : Shared) where
  route-found :
      (b : Best)
      → q.method ≢ invalid
      → select q.uri locations no_match ≡ ok b
      → b.matched ≡ true
      → route locations remote q s ≡ run_handler locations remote q b.max_matched_key s
  unfolding route
  route-found b m done t = rw (is_invalid-false q.method m, done, route) (rw t)

  route-missed :
      (b : Best)
      → q.method ≢ invalid
      → select q.uri locations no_match ≡ ok b
      → b.matched ≡ false
      → route locations remote q s ≡ ok (make_400_error empty_response, s)
  unfolding route
  route-missed b m done f = rw (is_invalid-false q.method m, done, route) (rw f)

  route-Chosen :
      (b : Best)
      → q.method ≢ invalid
      → select q.uri locations no_match ≡ ok b
      → Chosen q.uri locations b
      → Routed locations remote q s (route locations remote q s)
  route-Chosen b m done (missed f n) = unrouted n (route-missed b m done f)
  route-Chosen b m done (found t l) =
      let (h, e) = find-HasKey b.max_matched_key locations l.present in
      handled b.max_matched_key h l e
        (route-found b m done t ∙ run_handler-find locations remote q b.max_matched_key s e)

  -- The cache does not answer the request.
  abbrev pub NotCached : Type 0
  NotCached = (q.uri ≡ codes "/status") ⊎ (find q.uri s.cache_query ≡ none)

  process_req-route : NotCached → process_req locations remote q s ≡ route locations remote q s
  unfolding process_req
  process_req-route (inl e) = rw ((equal_iff q.uri (codes "/status")).1 e)
  process_req-route (inr e) = elim (Bool-cases (equal q.uri (codes "/status"))) [
    | inl status ↦ rw status
    | inr other ↦ rw other (rw (e, process_req))
  ]

-- A request with one of the four methods that the cache does not answer goes to the handler of a
-- longest location that takes its uri. That handler's response is the answer, it is cached under
-- the uri, and the metrics are logged. If no location takes the uri, the answer is error 400 and
-- nothing else changes. No location's key is empty.
pub process_req-Routed :
    (locations : Locations) (remote : Remote) (q : Request) (s : Shared)
    → NoEmptyKey locations
    → q.method ≢ invalid
    → NotCached locations remote q s
    → Routed locations remote q s (process_req locations remote q s)
process_req-Routed locations remote q s ne m n =
    let (b, (done, c)) = select-Chosen q.uri locations ne in
    subst (Routed locations remote q s) (sym (process_req-route locations remote q s n))
      (route-Chosen locations remote q s b m done c)

pub process_req-cached :
    (locations : Locations) (remote : Remote) (q : Request) (s : Shared) {r : Response}
    → q.uri ≢ codes "/status"
    → find q.uri s.cache_query ≡ some r
    → process_req locations remote q s ≡ ok (r, s)
unfolding process_req
process_req-cached locations remote q s ne e = elim (Bool-cases (equal q.uri (codes "/status"))) [
  | inl status ↦ absurd (ne ((equal_iff q.uri (codes "/status")).0 status))
  | inr other ↦ rw other (rw (e, process_req))
]

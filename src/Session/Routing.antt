-- ===== src/Session/Routing.antt =====
-- src/session.cc: `process_req`. The handlers stand behind an interface, as the virtual functions
-- of `request_handler` do.
use web_server_development.Prelude.{
  ℕ, suc, Bool, true, false, ◌&&◌, List, [], ◌∷◌, ◌++◌, none, some, Result, ok, throws,
  out_of_range, ◌>>=◌, ltb, if◌then◌else◌, length,
}
use web_server_development.Text.{Bytes, codes, equal, substr, compare_at, sub_size}
use web_server_development.StdMap.{StdMap, find, assign}
use web_server_development.Request.{Request}
use web_server_development.Response.{Response, empty_response, make_400_error}
use web_server_development.Handlers.Echo.{is_invalid}
use web_server_development.World.{World}
use web_server_development.Log.{Remote, log_metrics}

-- include/request_handler.h: what a session calls of a handler. A handler may read files, the logs
-- among them, and the date: it is given the machine as it is at the time of the call.
pub record RequestHandler : Type 0 where
  pub handle_request : World → Request → Result Response
  pub handler_name : Bytes

abbrev pub Locations : Type 0
Locations = StdMap RequestHandler

-- Whether the body of the loop sets `matched`, for one location
unfoldable pub matches : Bytes → Bytes → Result Bool
unfolding compare_at substr
matches uri key = do
  slash ←
      (if ltb (length key) (length uri)
        then compare_at uri (sub_size (length key) 1) 1 (codes "/")
        else ok true)
  short ← substr key 0 (sub_size (length key) 1)
  same ← compare_at uri 0 (sub_size (length key) 1) short
  ok (slash && same)

-- `max_matched_length`, `max_matched_key` and `matched`
pub record Best : Type 0 where
  pub matched : Bool
  pub max_matched_length : ℕ
  pub max_matched_key : Bytes

abbrev pub no_match : Best
no_match = record { matched = false; max_matched_length = 0; max_matched_key = [] }

unfoldable pub improve : Best → Bytes → Best
improve b key =
    if ltb b.max_matched_length (length key)
    then record { matched = true; max_matched_length = length key; max_matched_key = key }
    else record b { matched = true }

-- The loop over `location_handlers_`
unfoldable pub select : Bytes → Locations → Best → Result Best
unfolding matches improve
select uri [] b = ok b
select uri ((key, h) ∷ m) b = do
  hit ← matches uri key
  select uri m (if hit then improve b key else b)

-- What `process_req` changes outside itself, and `machines`, the machine that it runs on as each of
-- the calls of a handler to come finds it: between two calls, files and logs are written, by this
-- program and by others, and time goes on.
pub record Shared : Type 0 where
  pub cache_query : StdMap Response
  pub log : List Bytes
  pub machines : ℕ → World

-- `location_handlers_.at(key)`
unfoldable pub handler_at : Bytes → Locations → Result RequestHandler
unfolding find
handler_at key m = elim (find key m) [ none ↦ throws out_of_range | some h ↦ ok h ]

-- The branch `if (matched)`
unfoldable pub run_handler :
    Locations → Remote → Request → Bytes → Shared → Result (Response × Shared)
unfolding handler_at assign log_metrics
run_handler locations remote q key s = do
  h ← handler_at key locations
  r ← h.handle_request (s.machines 0) q
  ok (
    r,
    record {
      cache_query = assign q.uri r s.cache_query;
      log = s.log ++ log_metrics q r remote h.handler_name ∷ [];
      machines = λ n. s.machines (suc n);
    },
  )

-- The branch that the cache does not answer
unfoldable pub route : Locations → Remote → Request → Shared → Result (Response × Shared)
unfolding select run_handler make_400_error
route locations remote q s = do
  best ← (if is_invalid q.method then ok no_match else select q.uri locations no_match)
  let found = run_handler locations remote q best.max_matched_key s
  if best.matched then found else ok (make_400_error empty_response, s)

unfoldable pub process_req : Locations → Remote → Request → Shared → Result (Response × Shared)
unfolding route find equal
process_req locations remote q s =
    let routed = route locations remote q s in
    if equal q.uri (codes "/status")
    then routed
    else elim (find q.uri s.cache_query) [ some r ↦ ok (r, s) | none ↦ routed ]

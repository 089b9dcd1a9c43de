-- ===== src/Session/Receive.antt =====
-- src/session.cc: the operations of a session but `process_req`. A pointer into `data_` is the bytes
-- from it up to the end of what was received.
use web_server_development.Prelude.{
  ℕ, zero, suc, ◌-◌, Bool, true, false, List, [], ◌∷◌, ◌++◌, Option, none, some, Result, ok, throws,
  undefined, ◌>>=◌, leb, ltb, if◌then◌else◌, length, drop,
}
use web_server_development.Prelude.Int.{ℤ, pos, negsuc, below}
use web_server_development.Text.{Bytes}
use web_server_development.Request.{Request, empty_request}
use web_server_development.RequestParser.{
  Parser, Parsed, ResultType, indeterminate, initial, reset, parse,
}
use web_server_development.Response.{build}
use web_server_development.Connection.{Connection, remote_endpoint, read, write}
use web_server_development.Log.{log_request_info, log_response_sent}
use web_server_development.Session.Routing.{Locations, Shared, process_req}

-- `body_start + body_len`
unfoldable pub advance : Bytes → Bytes → ℤ → Result Bytes
advance received rest (pos n) = if leb n (length rest) then ok (drop n rest) else throws undefined
advance received rest (negsuc n) =
    let start = length received - length rest in
    if ltb n start then ok (drop (start - suc n) received) else throws undefined

abbrev pub is_indeterminate : ResultType → Bool
is_indeterminate indeterminate = true
is_indeterminate _ = false

-- The loop's variables: the requests so far and the last result of `parse`, which holds
-- `request_` and `request_parser_` too
pub record Extracted : Type 0 where
  pub requests : List Request
  pub last : Parsed

-- The body of the `do … while` loop
unfoldable pub extract_once : Bytes → List Request → Request → Parser → Result Extracted
unfolding parse reset advance
extract_once received requests q p = do
  first ← parse q p received
  let pushed = requests ++ first.req ∷ []
  let again = do
    begin ← advance received first.rest first.body_len
    second ← parse empty_request (reset first.parser) begin
    ok (record { requests = pushed; last = second })
  if is_indeterminate first.result then ok (record { requests = requests; last = first }) else again

-- The loop; `none` says that it is still running when the fuel is spent.
unfoldable pub extract : ℕ → Bytes → List Request → Request → Parser → Option (Result Extracted)
unfolding extract_once
extract zero received requests q p = none
extract (suc fuel) received requests q p = elim (extract_once received requests q p) [
  | throws e ↦ some (throws e)
  | ok x ↦ elim (below x.last.body_len (length x.last.rest)) [
    | true ↦ extract fuel received x.requests x.last.req x.last.parser
    | false ↦ some (ok x)
  ]
]

-- The members of a session that its calls change
pub record Session : Type 0 where
  pub request : Request
  pub request_parser : Parser
  pub connection : Connection

abbrev pub new_session : Connection → Session
new_session connection = record {
  request = empty_request;
  request_parser = initial;
  connection = connection;
}

unfoldable pub start : Session → Session
unfolding read
start c = record c { connection = read c.connection }

unfoldable pub wait_for_req : Session → Session
unfolding read
wait_for_req c = record c { connection = read c.connection }

-- `completed_request`, which does the same with an error and without
unfoldable pub completed_request : Bool → Shared → Shared
completed_request failed s = record s { log = s.log ++ log_response_sent ∷ [] }

module _ (locations : Locations) where
  -- `thread_work`
  unfoldable pub thread_work : Request → Session → Shared → Result (Session × Shared)
  unfolding process_req build remote_endpoint write
  thread_work q c s = do
    (r, s') ← process_req locations (remote_endpoint c.connection) q s
    ok (record c { connection = write (build r) c.connection }, s')

  -- The loop over `requests`
  unfoldable pub serve : List Request → Session → Shared → Result (Session × Shared)
  unfolding thread_work log_request_info remote_endpoint
  serve [] c s = ok (c, s)
  serve (q ∷ qs) c s = do
    line ← log_request_info q (remote_endpoint c.connection)
    (c', s') ← thread_work q c (record s { log = s.log ++ line ∷ [] })
    serve qs c' s'

  -- `received_req`, where `failed` is the error of the read
  unfoldable pub received_req :
      ℕ → Bool → Bytes → Session → Shared → Option (Result (Session × Shared))
  unfolding extract serve wait_for_req
  received_req fuel true received c s = some (ok (c, s))
  received_req fuel false received c s =
      elim (extract fuel received [] c.request c.request_parser) [
        | none ↦ none
        | some outcome ↦ some (do
          x ← outcome
          let c' = record c { request = x.last.req; request_parser = x.last.parser }
          (c'', s') ← serve x.requests c' s
          ok (wait_for_req c'', s'))
      ]

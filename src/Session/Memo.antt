-- ===== src/Session/Memo.antt =====
-- What the cache amounts to over a sequence of requests: each uri's first answer, remembered, and a
-- line in the log for each answer of a handler.
use web_server_development.Prelude.{
  ℕ, suc, true, List, [], ◌∷◌, ◌++◌, Option, none, some, ◌≡◌, refl, sym, ◌∙◌, ap, subst, append-nil,
  append_assoc, inl, inr, Result, ok, throws, ◌>>=◌, Fault, map, if◌then◌else◌, Bool-cases,
  Option-cases, Result-cases,
}
use web_server_development.Text.{Bytes, codes, equal}
use web_server_development.StdMap.{find, assign}
use web_server_development.StdMap.Laws.{find-assign}
use web_server_development.Request.{Request}
use web_server_development.Response.{Response, empty_response, make_400_error}
use web_server_development.Handlers.Echo.{is_invalid}
use web_server_development.World.{World}
use web_server_development.Log.{Remote, log_metrics}
use web_server_development.Session.Routing.{
  Locations, Shared, Best, no_match, select, handler_at, run_handler, route, process_req,
}

-- The requests of a server, one after the other, each with its peer
unfoldable pub process_all :
    Locations → List (Remote × Request) → Shared → Result (List Response × Shared)
unfolding process_req
process_all locations [] s = ok ([], s)
process_all locations ((remote, q) ∷ qs) s = do
  (r, s') ← process_req locations remote q s
  (rs, s'') ← process_all locations qs s'
  ok (r ∷ rs, s'')

-- What shows of a run: the answers, and the log behind it
abbrev pub visible : Result (List Response × Shared) → Result (List Response × List Bytes)
visible (throws e) = throws e
visible (ok (rs, s)) = ok (rs, s.log)

-- What a request is answered with, and the name of the handler that made the answer for it, if one did
pub record Answer : Type 0 where
  pub response : Response
  pub made_by : Option Bytes

-- What is remembered for each uri, and the machine as the handlers find it at each further call
pub record Memory : Type 0 where
  pub remembered : Bytes → Option Response
  pub machines : ℕ → World

-- Nothing is remembered.
abbrev pub no_memory : (ℕ → World) → Memory
no_memory machines = record { remembered = λ uri. none; machines = machines }

-- A handler was called.
abbrev pub remember : Bytes → Response → Memory → Memory
remember uri r f = record {
  remembered = λ k. if equal uri k then some r else f.remembered k;
  machines = λ n. f.machines (suc n);
}

-- What the handlers say to a request, with no cache
unfoldable pub answer : Locations → World → Request → Result Answer
unfolding select handler_at make_400_error
answer locations w q = do
  best ← (if is_invalid q.method then ok no_match else select q.uri locations no_match)
  let found = do
    h ← handler_at best.max_matched_key locations
    r ← h.handle_request w q
    ok (record { response = r; made_by = some h.handler_name })
  let missed = ok (record { response = make_400_error empty_response; made_by = none })
  if best.matched then found else missed

abbrev pub remember_answer : Bytes → Answer → Memory → Memory
remember_answer uri a f = elim a.made_by [ none ↦ f | some name ↦ remember uri a.response f ]

-- What a handler answers is remembered.
unfoldable pub memo_fresh : Locations → Request → Memory → Result (Answer × Memory)
unfolding answer equal
memo_fresh locations q f = do
  a ← answer locations (f.machines 0) q
  ok (a, remember_answer q.uri a f)

-- One request, specified: what is remembered is answered, except at "/status".
unfoldable pub memo_step : Locations → Request → Memory → Result (Answer × Memory)
unfolding memo_fresh equal
memo_step locations q f =
    let fresh = memo_fresh locations q f in
    if equal q.uri (codes "/status") then fresh else elim (f.remembered q.uri) [
      | some r ↦ ok (record { response = r; made_by = none }, f)
      | none ↦ fresh
    ]

unfoldable pub memo_all : Locations → List Request → Memory → Result (List Answer)
unfolding memo_step
memo_all locations [] f = ok []
memo_all locations (q ∷ qs) f = do
  (a, f') ← memo_step locations q f
  later ← memo_all locations qs f'
  ok (a ∷ later)

-- The line of an answer, if a handler made it for the request
abbrev pub metrics_of : Remote → Request → Answer → List Bytes
metrics_of remote q a = elim a.made_by [
  | none ↦ []
  | some name ↦ log_metrics q a.response remote name ∷ []
]

-- The lines of some answers
abbrev pub metrics_all : List (Remote × Request) → List Answer → List Bytes
metrics_all [] answers = []
metrics_all (pair ∷ qs) [] = []
metrics_all ((remote, q) ∷ qs) (a ∷ answers) = metrics_of remote q a ++ metrics_all qs answers

-- The cache holds what is remembered, and the machine is the same.
pub record Agrees (s : Shared) (f : Memory) : Type 0 where
  pub cache_is : (k : Bytes) → find k s.cache_query ≡ f.remembered k
  pub machines_is : s.machines ≡ f.machines

pub Agrees-logged :
    (s : Shared) (f : Memory) (log : List Bytes) → Agrees s f → Agrees (record s { log = log }) f
Agrees-logged s f log a = record { cache_is = a.cache_is; machines_is = a.machines_is }

-- Both fail in the same way, or both give the same answer, which is logged, and agree afterwards.
pub data Refines (remote : Remote) (q : Request) (log : List Bytes) (m : Result (Response × Shared))
    (m' : Result (Answer × Memory)) : Type 0 where
  both_fail : (e : Fault) → m ≡ throws e → m' ≡ throws e → Refines remote q log m m'
  both_answer :
      (a : Answer) (s : Shared) (f : Memory)
      → m ≡ ok (a.response, s)
      → m' ≡ ok (a, f)
      → Agrees s f
      → s.log ≡ log ++ metrics_of remote q a
      → Refines remote q log m m'

remember-Agrees :
    (uri : Bytes) (r : Response) (s : Shared) (log : List Bytes) (f : Memory)
    → Agrees s f
    → Agrees
        (record {
          cache_query = assign uri r s.cache_query;
          log = log;
          machines = λ n. s.machines (suc n);
        })
        (remember uri r f)
remember-Agrees uri r s log f a = record {
  cache_is = λ k.
      find-assign uri k r s.cache_query
      ∙ ap (λ (o : Option Response). if equal uri k then some r else o) (a.cache_is k);
  machines_is = ap {B = ℕ → World} (λ ms n. ms (suc n)) a.machines_is;
}

module _ (locations : Locations) (remote : Remote) (q : Request) (s : Shared) (f : Memory)
    (a : Agrees s f) where
  -- The location that was selected, at `key`
  matched-Refines :
      (best : Best)
      → (if is_invalid q.method then ok no_match else select q.uri locations no_match) ≡ ok best
      → best.matched ≡ true
      → Refines remote q s.log (route locations remote q s) (memo_fresh locations q f)
  unfolding route run_handler memo_fresh answer
  matched-Refines best chosen hit =
      elim (Result-cases (handler_at best.max_matched_key locations)) [
        | inl (e, absent) ↦
            both_fail e (rw (chosen, route) (rw hit (rw absent refl)))
              (rw (chosen, memo_fresh) (rw hit (rw absent refl)))
        | inr (h, present) ↦
            let same_machine : s.machines 0 ≡ f.machines 0 =
              ap (λ (ms : ℕ → World). ms 0) a.machines_is in
            elim (Result-cases (h.handle_request (s.machines 0) q)) [
              | inl (e, failed) ↦
                  let failed' : h.handle_request (f.machines 0) q ≡ throws e =
                    subst (λ w. h.handle_request w q ≡ throws e) same_machine failed in
                  both_fail e (rw (chosen, route) (rw hit (rw present (rw failed refl))))
                    (rw (chosen, memo_fresh) (rw hit (rw present (rw failed' refl))))
              | inr (r, answered) ↦
                  let answered' : h.handle_request (f.machines 0) q ≡ ok r =
                    subst (λ w. h.handle_request w q ≡ ok r) same_machine answered in
                  both_answer (record { response = r; made_by = some h.handler_name })
                    (record {
                      cache_query = assign q.uri r s.cache_query;
                      log = s.log ++ log_metrics q r remote h.handler_name ∷ [];
                      machines = λ n. s.machines (suc n);
                    })
                    (remember q.uri r f)
                    (rw (chosen, route) (rw hit (rw present (rw answered refl))))
                    (rw (chosen, memo_fresh) (rw hit (rw present (rw answered' refl))))
                    (remember-Agrees q.uri r s (s.log ++ log_metrics q r remote h.handler_name ∷ [])
                      f a)
                    refl
            ]
      ]

  route-Refines : Refines remote q s.log (route locations remote q s) (memo_fresh locations q f)
  unfolding route memo_fresh answer
  route-Refines =
      elim (Result-cases
        (if is_invalid q.method then ok no_match else select q.uri locations no_match)) [
          | inl (e, failed) ↦ both_fail e (rw (failed, route) refl) (rw (failed, memo_fresh) refl)
          | inr (best, chosen) ↦ elim (Bool-cases best.matched) [
            | inl hit ↦ matched-Refines best chosen hit
            | inr miss ↦
                both_answer (record { response = make_400_error empty_response; made_by = none }) s
                  f (rw (chosen, route) (rw miss refl)) (rw (chosen, memo_fresh) (rw miss refl)) a
                  (sym (append-nil s.log))
          ]
        ]

  pub process_req-Refines :
      Refines remote q s.log (process_req locations remote q s) (memo_step locations q f)
  unfolding process_req memo_step
  process_req-Refines = elim (Bool-cases (equal q.uri (codes "/status"))) [
    | inl status ↦ rw (status, process_req, memo_step) route-Refines
    | inr other ↦ elim (Option-cases (find q.uri s.cache_query)) [
      | inl absent ↦
          rw (other, process_req, memo_step)
            (rw absent (rw (sym (a.cache_is q.uri) ∙ absent) route-Refines))
      | inr (r, present) ↦
          both_answer (record { response = r; made_by = none }) s f
            (rw (other, process_req) (rw present refl))
            (rw (other, memo_step) (rw (sym (a.cache_is q.uri) ∙ present) refl)) a
            (sym (append-nil s.log))
    ]
  ]

-- What is to show of a run, by its specification
abbrev pub expected :
    List (Remote × Request)
    → List Bytes
    → Result (List Answer)
    → Result (List Response × List Bytes)
expected qs log m = do
  answers ← m
  ok (map (λ a. a.response) answers, log ++ metrics_all qs answers)

abbrev put_first : Response → List Response × Shared → Result (List Response × Shared)
put_first r (rs, s) = ok (r ∷ rs, s)

-- An answer in front of others
prepend :
    (remote : Remote) (q : Request) (qs : List (Remote × Request)) (a : Answer)
    (log log' : List Bytes) (m : Result (List Response × Shared)) (m' : Result (List Answer))
    → log' ≡ log ++ metrics_of remote q a
    → visible m ≡ expected qs log' m'
    → visible (m >>= put_first a.response)
      ≡ expected ((remote, q) ∷ qs) log (m' >>= λ answers. ok (a ∷ answers))
prepend remote q qs a log log' (throws e) (throws e') l h = h
prepend remote q qs a log log' (throws e) (ok answers) l h = absurd (cc h)
prepend remote q qs a log log' (ok (rs, s)) (throws e') l h = absurd (cc h)
prepend remote q qs a log log' (ok (rs, s)) (ok answers) l h =
    let logged : s.log ≡ log' ++ metrics_all qs answers = cc h in
    let given : rs ≡ map (λ b. b.response) answers = cc h in
    rw given (
      ap (λ (l' : List Bytes). ok (a.response ∷ map (λ b. b.response) answers, l'))
        (logged
          ∙ ap (λ (l' : List Bytes). l' ++ metrics_all qs answers) l
          ∙ append_assoc log (metrics_of remote q a) (metrics_all qs answers)))

-- Over any sequence of requests, the answers of the server and its log behind them, or the fault
-- that ends them, are those of a server that remembers by uri, in a function, each answer that a
-- handler gave, and logs one line for each call of a handler: no other property of the cache shows.
-- A handler that is called finds the machine, with its files, its logs and its date, as it is at
-- that call; both servers run on the same machine. At the start, the cache holds what is
-- remembered.
pub process_all-memo_all :
    (locations : Locations) (qs : List (Remote × Request)) (s : Shared) (f : Memory)
    → Agrees s f
    → visible (process_all locations qs s)
      ≡ expected qs s.log (memo_all locations (map (λ pair. pair.1) qs) f)
unfolding process_all memo_all
process_all-memo_all locations [] s f a =
    ap (λ (l : List Bytes). ok ([], l)) (sym (append-nil s.log))
process_all-memo_all locations ((remote, q) ∷ qs) s f a =
    elim (process_req-Refines locations remote q s f a) [
      | both_fail e here there ↦ rw (here, process_all) (rw (there, memo_all) refl)
      | both_answer r s' f' here there agree logged ↦
          rw (here, process_all)
            (rw (there, memo_all)
              (prepend remote q qs r s.log s'.log (process_all locations qs s')
                (memo_all locations (map (λ pair. pair.1) qs) f') logged
                (process_all-memo_all locations qs s' f' agree)))
    ]

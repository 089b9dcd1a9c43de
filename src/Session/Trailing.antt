-- ===== src/Session/Trailing.antt =====
-- A request with more bytes behind it, in one read, that may not begin a request.
use web_server_development.Prelude.{
  ℕ, zero, suc, true, false, List, [], ◌∷◌, ◌++◌, none, ◌≡◌, refl, ◌∙◌, ok,
}
use web_server_development.Text.{Bytes}
use web_server_development.Request.{Request, Method, empty_request}
use web_server_development.RequestParser.{
  Parsed, good, initial, refused, method_of, conclude, parse,
}
use web_server_development.RequestParser.Bounds.{parse-InBounds, parse_extends}
use web_server_development.RequestParser.Methods.{set_method, parse-set_method}
use web_server_development.Session.Routing.{Locations, Shared}
use web_server_development.Session.Receive.{extract, Session, received_req}
use web_server_development.Session.Pipeline.{extract_repeats, extract_once-good}
use web_server_development.Session.Conversation.{IsIdle}
use web_server_development.Session.Hangs.{refusal, parse-refused, refusal_repeats}

-- What the refused byte leaves, but for the method, is a fresh parser and an empty request.
refusal_empties :
    (rest : Bytes)
    → ((refusal empty_request initial rest).req ≡ set_method (method_of []) empty_request)
      × ((refusal empty_request initial rest).parser ≡ initial)
unfolding refusal conclude
refusal_empties rest = (refl, refl)

module _ (xs : Bytes) (b c : ℕ) (cs : Bytes) {r : Parsed}
    (complete : parse empty_request initial xs ≡ ok r) (is_good : r.result ≡ good)
    (is_whole : r.rest ≡ []) (refuses : refused b ≡ true) where
  -- Every round finds the same request again.
  extract-trailing :
      (fuel : ℕ) (m : Method) (requests : List Request)
      → extract fuel (xs ++ b ∷ c ∷ cs) requests (set_method m empty_request) initial ≡ none
  extract-trailing zero m requests = unfold extract in refl
  extract-trailing (suc fuel) m requests =
      let received = xs ++ b ∷ c ∷ cs in
      let q = set_method m empty_request in
      let again = parse-set_method m xs empty_request initial complete is_good in
      let behind : parse empty_request initial (r.rest ++ b ∷ c ∷ cs)
          ≡ ok (refusal empty_request initial (c ∷ cs)) =
        rw is_whole (parse-refused empty_request initial b (c ∷ cs) (refl, refl) refuses) in
      let once =
        extract_once-good received requests q initial
          (parse_extends xs (b ∷ c ∷ cs) q initial again is_good) is_good
          ((parse-InBounds xs empty_request initial complete).good_needs_none is_good) behind in
      let (empties, resets) = refusal_empties (c ∷ cs) in
      extract_repeats fuel received requests q initial once
        (refusal_repeats empty_request initial c cs refl)
      ∙ rw (empties, resets) (extract-trailing fuel (method_of []) (requests ++ r.req ∷ []))

-- One read, at the start of a request, brings a request to its last byte and, behind it, a byte that
-- may not stand in a method and one byte more. Then the loop of the source finds the same request in
-- every round and is still running after every number of rounds, and the session never comes to
-- answer it or to read again.
pub received_req-trailing :
    (locations : Locations) (fuel : ℕ) (xs : Bytes) (b c : ℕ) (cs : Bytes) (w : Session)
    (s : Shared) {r : Parsed}
    → IsIdle w
    → parse empty_request initial xs ≡ ok r
    → r.result ≡ good
    → r.rest ≡ []
    → refused b ≡ true
    → received_req locations fuel false (xs ++ b ∷ c ∷ cs) w s ≡ none
unfolding received_req
received_req-trailing locations fuel xs b c cs w s (empty, fresh) e k d h =
    let runs_on : extract fuel (xs ++ b ∷ c ∷ cs) [] w.request w.request_parser ≡ none =
      rw (empty, fresh) (extract-trailing xs b c cs e k d h fuel empty_request.method []) in
    rw (runs_on, received_req) refl

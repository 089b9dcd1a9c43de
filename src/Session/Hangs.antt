-- ===== src/Session/Hangs.antt =====
-- Input on which the loop of `received_req` does not end.
use web_server_development.Prelude.{
  ℕ, zero, suc, ◌-◌, ◌^◌, true, false, List, [], ◌∷◌, ◌++◌, Option, none, some, ◌≡◌, refl, ◌∙◌,
  Result, ok, throws, undefined, Fault, arith, Result-cases, Option-cases, ltb, length, ◌⊎◌, inl,
  inr, Bool-cases,
}
use web_server_development.Prelude.Int.{pos, negsuc, below}
use web_server_development.Text.{Bytes, push_back}
use web_server_development.Request.{Request, empty_request}
use web_server_development.RequestParser.{
  Parser, Parsed, bad, indeterminate, method_start, body, initial, refused, conclude, parse,
  decrement,
}
use web_server_development.RequestParser.Bounds.{parse-InBounds}
use web_server_development.Session.Routing.{Locations, Shared}
use web_server_development.Session.Receive.{extract_once, extract, Session, received_req, advance}
use web_server_development.Session.Pipeline.{extract_repeats, extract_once-indeterminate}

-- A parser at the start of a request
abbrev pub IsFresh : Parser → Type 0
IsFresh p = (p.state ≡ method_start) × (p.body_length ≡ pos 0)

-- What `parse` returns for a first byte that it refuses
unfoldable pub refusal : Request → Parser → Bytes → Parsed
unfolding conclude
refusal q p rest = conclude bad q p rest

pub parse-refused :
    (q : Request) (p : Parser) (c : ℕ) (rest : Bytes)
    → IsFresh p
    → refused c ≡ true
    → parse q p (c ∷ rest) ≡ ok (refusal q p rest)
unfolding parse refusal
parse-refused q p c rest (s, n) h = rw (s, parse) (ground arith)

pub refusal_is :
    (q : Request) (p : Parser) (rest : Bytes)
    → p.body_length ≡ pos 0
    → ((refusal q p rest).result ≡ bad)
      × ((refusal q p rest).rest ≡ rest)
      × ((refusal q p rest).body_len ≡ pos 0)
unfolding refusal
refusal_is q p rest n = ground arith

extract_once-refused :
    (a b : ℕ) (cs : Bytes) (requests : List Request) (q : Request) (p : Parser)
    → IsFresh p
    → refused a ≡ true
    → refused b ≡ true
    → extract_once (a ∷ b ∷ cs) requests q p
      ≡ ok (record {
        requests = requests ++ (refusal q p (b ∷ cs)).req ∷ [];
        last = refusal empty_request initial cs;
      })
unfolding extract_once advance
extract_once-refused a b cs requests q p f ha hb =
    let (bad_is, rest_is, len_is) = refusal_is q p (b ∷ cs) f.1 in
    rw (parse-refused q p a (b ∷ cs) f ha, extract_once)
      (ground
        (arith, bad_is, rest_is, len_is, parse-refused empty_request initial b cs (refl, refl) hb))

pub refusal_repeats :
    (q : Request) (p : Parser) (c : ℕ) (cs : Bytes)
    → p.body_length ≡ pos 0
    → below (refusal q p (c ∷ cs)).body_len (length (refusal q p (c ∷ cs)).rest) ≡ true
unfolding refusal
refusal_repeats q p c cs n = ground arith

refusal-IsFresh :
    (q : Request) (p : Parser) (rest : Bytes) → IsFresh p → IsFresh (refusal q p rest).parser
unfolding refusal
refusal-IsFresh q p rest f = f

extract-refused :
    (fuel : ℕ) (a b c : ℕ) (cs : Bytes) (requests : List Request) (q : Request) (p : Parser)
    → IsFresh p
    → refused a ≡ true
    → refused b ≡ true
    → extract fuel (a ∷ b ∷ c ∷ cs) requests q p ≡ none
extract-refused zero a b c cs requests q p f ha hb = unfold extract in refl
extract-refused (suc fuel) a b c cs requests q p f ha hb =
    extract_repeats fuel (a ∷ b ∷ c ∷ cs) requests q p
      (extract_once-refused a b (c ∷ cs) requests q p f ha hb)
      (refusal_repeats empty_request initial c cs refl)
    ∙ extract-refused fuel a b c cs _ _ _
        (refusal-IsFresh empty_request initial (c ∷ cs) (refl, refl)) ha hb

-- The read has three bytes or more, a request is to begin with it, and its first two bytes may not
-- stand in a method. Then the loop of the source is still running after every number of rounds,
-- and the session never comes to answer or to read again.
pub received_req-refused :
    (locations : Locations) (fuel : ℕ) (a b c : ℕ) (cs : Bytes) (w : Session) (s : Shared)
    → IsFresh w.request_parser
    → refused a ≡ true
    → refused b ≡ true
    → received_req locations fuel false (a ∷ b ∷ c ∷ cs) w s ≡ none
unfolding received_req
received_req-refused locations fuel a b c cs w s f ha hb =
    rw (extract-refused fuel a b c cs [] w.request w.request_parser f ha hb, received_req)

-- The parser in a body whose announced length is below zero
abbrev pub IsNegative : Parser → Type 0
IsNegative p = (p.state ≡ body) × ((n : ℕ) × (p.body_length ≡ negsuc n))

-- What `parse` leaves then, if it returns
record StaysNegative (r : Parsed) : Type 0 where
  result_is : r.result ≡ indeterminate
  negative : IsNegative r.parser
  body_len_is : below r.body_len (length r.rest) ≡ true

abbrev Stuck : Result Parsed → Type 0
Stuck (ok r) = StaysNegative r
Stuck (throws e) = e ≡ undefined

negative_step :
    (q : Request) (p : Parser) (n c : ℕ) (cs : Bytes)
    → p.state ≡ body
    → p.body_length ≡ negsuc n
    → (parse q p (c ∷ cs) ≡ throws undefined)
      ⊎ ((q' : Request) × (parse q p (c ∷ cs)
            ≡ parse q' (record p { body_length = negsuc (suc n) }) cs))
unfolding parse decrement
negative_step q p n c cs s e = elim (Bool-cases (ltb n (2 ^ 31 - 1))) [
  | inl small ↦ inr (record q { body = push_back q.body c }, rw (s, parse) (ground arith))
  | inr big ↦ inl (rw (s, parse) (ground arith))
]

parse-Stuck :
    (input : Bytes) (q : Request) (p : Parser) (n : ℕ)
    → p.state ≡ body
    → p.body_length ≡ negsuc n
    → Stuck (parse q p input)
parse-Stuck [] q p n s e =
    unfold parse in record { result_is = refl; negative = (s, (n, e)); body_len_is = rw (e, below) }
parse-Stuck (c ∷ cs) q p n s e = elim (negative_step q p n c cs s e) [
  | inl failed ↦ rw failed refl
  | inr (q', step) ↦
      rw step (parse-Stuck cs q' (record p { body_length = negsuc (suc n) }) (suc n) s refl)
]

-- Still running, or ended by undefined behaviour and by no other fault
abbrev pub NeverReturns {ℓ} : {A : Type ℓ} → Option (Result A) → Type 0
NeverReturns none = Unit
NeverReturns (some (ok x)) = ⊥
NeverReturns (some (throws e)) = e ≡ undefined

extract_throws :
    (fuel : ℕ) (received : Bytes) (requests : List Request) (q : Request) (p : Parser) {f : Fault}
    → extract_once received requests q p ≡ throws f
    → extract (suc fuel) received requests q p ≡ some (throws f)
unfolding extract
extract_throws fuel received requests q p e = rw (e, extract)

extract-negative :
    (fuel : ℕ) (received : Bytes) (requests : List Request) (q : Request) (p : Parser)
    → IsNegative p
    → NeverReturns (extract fuel received requests q p)
unfolding extract_once
extract-negative zero received requests q p (s, (n, e)) = unfold extract in tt
extract-negative (suc fuel) received requests q p (s, (n, e)) =
    let stuck = parse-Stuck received q p n s e in
    elim (Result-cases (parse q p received)) [
      | inl (f, failed) ↦
          let throws_too : extract_once received requests q p ≡ throws f =
            rw (failed, extract_once) in
          rw (extract_throws fuel received requests q p throws_too) (rw failed at stuck)
      | inr (r, read) ↦
          let stays : StaysNegative r = rw read at stuck in
          let once = extract_once-indeterminate received requests q p read stays.result_is in
          rw (extract_repeats fuel received requests q p once stays.body_len_is)
            (extract-negative fuel received requests r.req r.parser stays.negative)
    ]

extract-negative_read :
    (fuel : ℕ) (received : Bytes) (requests : List Request) (q : Request) (p : Parser) {h : Parsed}
    → parse q p received ≡ ok h
    → h.result ≡ indeterminate
    → h.rest ≡ []
    → IsNegative h.parser
    → NeverReturns (extract fuel received requests q p)
extract-negative_read zero received requests q p e i d g = unfold extract in tt
extract-negative_read (suc fuel) received requests q p {h} e i d (s, (n, z)) =
    let b = parse-InBounds received q p e in
    let runs : below h.body_len (length h.rest) ≡ true = rw (b.length_is, z) in
    rw
      (extract_repeats fuel received requests q p
        (extract_once-indeterminate received requests q p e i) runs)
      (extract-negative fuel received requests h.req h.parser (s, (n, z)))

received_req-NeverReturns :
    (locations : Locations) (fuel : ℕ) (received : Bytes) (w : Session) (s : Shared)
    → NeverReturns (extract fuel received [] w.request w.request_parser)
    → NeverReturns (received_req locations fuel false received w s)
unfolding received_req
received_req-NeverReturns locations fuel received w s h =
    elim (Option-cases (extract fuel received [] w.request w.request_parser)) [
      | inl running ↦ rw (running, received_req) tt
      | inr (some_result, ended) ↦ elim (Result-cases some_result) [
        | inl (f, failed) ↦
            let fault_is : f ≡ undefined = rw (ended, failed) at h in
            rw (ended, received_req) (rw failed fault_is)
        | inr (x, done) ↦ absurd (rw (ended, done) at h)
      ]
    ]

-- A Content-Length below zero was announced, and the read reaches into the body. Then the loop of
-- the source never comes to an end that is defined: at every number of rounds it is still
-- running, or is stopped by undefined behaviour, and by no other fault. So does `received_req`,
-- which then serves no request.
pub received_req-negative :
    (locations : Locations) (fuel : ℕ) (received : Bytes) (w : Session) (s : Shared) {h : Parsed}
    → parse w.request w.request_parser received ≡ ok h
    → h.result ≡ indeterminate
    → h.rest ≡ []
    → IsNegative h.parser
    → NeverReturns (extract fuel received [] w.request w.request_parser)
      × NeverReturns (received_req locations fuel false received w s)
received_req-negative locations fuel received w s e i d g =
    let loops = extract-negative_read fuel received [] w.request w.request_parser e i d g in
    (loops, received_req-NeverReturns locations fuel received w s loops)

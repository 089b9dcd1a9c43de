-- ===== src/RequestParser/Sound.antt =====
-- What the parser knows in each state, and so of each request that it accepts.
use web_server_development.Prelude.{ℕ, [], ◌∷◌, ◌≡◌, refl, Result, ok, throws, >>=-eq-ok, arith}
use web_server_development.Text.{Bytes}
use web_server_development.Request.{Request, empty_request}
use web_server_development.RequestParser.{
  State, method_start, expecting_newline_3, body, Parser, Parsed, Consumed, good, bad,
  indeterminate, initial, consume_in, consume, conclude, commit_header, parse,
}
use web_server_development.RequestParser.Chunks.{after, parse_step}
use web_server_development.RequestParser.Bounds.{conclude_bad-ne-good, parse_end-ne-good}
use web_server_development.RequestParser.WellFormed.{IsVersion, IsWellFormed}
use web_server_development.RequestParser.Fields.{
  VersionInv, Leaves, UriInv, consume_in-UriInv, HeadersInv, consume_in-HeadersInv, StateVersionInv,
  consume_in-VersionInv,
}

record Inv (q : Request) (p : Parser) : Type 0 where
  uri_inv : UriInv q p
  headers_inv : HeadersInv q p
  version_inv : StateVersionInv q p

-- A request that is complete has its version.
abbrev IsPastVersion : State → Type 0
IsPastVersion expecting_newline_3 = Unit {0}
IsPastVersion body = Unit {0}
IsPastVersion _ = ⊥

abbrev GoodIsPastVersion : Result Consumed → Type 0
GoodIsPastVersion (ok (good, q, p)) = IsPastVersion p.state
GoodIsPastVersion _ = Unit

consume_in-GoodIsPastVersion :
    (s : State) (q : Request) (p : Parser) (c : ℕ)
    → p.state ≡ s
    → GoodIsPastVersion (consume_in s q p c)
unfolding consume_in commit_header
consume_in-GoodIsPastVersion method_start q p c e = ground arith
consume_in-GoodIsPastVersion _ q p c e = ground arith

IsVersion-of : (s : State) (v : Bytes) → IsPastVersion s → VersionInv s v → IsVersion v
IsVersion-of expecting_newline_3 v h i = i
IsVersion-of body v h i = i
IsVersion-of _ v h i = absurd h

conclude-IsWellFormed :
    (q : Request) (p : Parser) (cs : Bytes)
    → Inv q p
    → IsPastVersion p.state
    → IsWellFormed (conclude good q p cs).req
unfolding conclude
conclude-IsWellFormed q p cs i g = record {
  uri_clean = i.uri_inv;
  version_IsVersion = IsVersion-of p.state q.version g i.version_inv;
  headers_IsHeader = i.headers_inv.headers;
  headers_IsSorted = i.headers_inv.sorted;
}

-- The induction over the input, behind one byte
after-IsWellFormed :
    (cs : Bytes) (t : Consumed) {r : Parsed}
    → ((q : Request) (p : Parser)
        → Inv q p
        → parse q p cs ≡ ok r
        → r.result ≡ good
        → IsWellFormed r.req)
    → Leaves Inv (ok t)
    → GoodIsPastVersion (ok t)
    → after cs t ≡ ok r
    → r.result ≡ good
    → IsWellFormed r.req
after-IsWellFormed cs (indeterminate, q, p) ih i g e k = ih q p i e k
after-IsWellFormed cs (good, q, p) {r} ih i g e k =
    let same : conclude good q p cs ≡ r = cc in rw same at (conclude-IsWellFormed q p cs i g)
after-IsWellFormed cs (bad, q, p) {r} ih i g e k =
    let same : conclude bad q p cs ≡ r = cc in absurd (conclude_bad-ne-good q p cs (rw same k))

Leaves-all :
    (t : Result Consumed)
    → Leaves UriInv t
    → Leaves HeadersInv t
    → Leaves StateVersionInv t
    → Leaves Inv t
Leaves-all (ok (indeterminate, q, p)) u h v = record {
  uri_inv = u;
  headers_inv = h;
  version_inv = v;
}
Leaves-all (ok (good, q, p)) u h v = record { uri_inv = u; headers_inv = h; version_inv = v }
Leaves-all (ok (bad, q, p)) u h v = tt
Leaves-all (throws e) u h v = tt

consume-Inv : (q : Request) (p : Parser) (c : ℕ) → Inv q p → Leaves Inv (consume q p c)
consume-Inv q p c i =
    Leaves-all (consume q p c) (consume_in-UriInv p.state q p c i.uri_inv)
      (consume_in-HeadersInv p.state q p c i.headers_inv)
      (consume_in-VersionInv p.state q p c refl i.version_inv)

parse-Inv :
    (input : Bytes) (q : Request) (p : Parser) {r : Parsed}
    → Inv q p
    → parse q p input ≡ ok r
    → r.result ≡ good
    → IsWellFormed r.req
parse-Inv [] q p i e k = absurd (parse_end-ne-good q p e k)
parse-Inv (c ∷ cs) q p i e k =
    let (t, s, later) = >>=-eq-ok (consume q p c) (after cs) (rw parse_step at e) in
    after-IsWellFormed cs t (λ q' p' i' h k'. parse-Inv cs q' p' i' h k')
      (rw s at (consume-Inv q p c i)) (rw s at (consume_in-GoodIsPastVersion p.state q p c refl))
      later k

-- Every request that a fresh parser accepts has a uri with no space and no control character, a
-- version of the form HTTP/ and two numbers with a dot between, and headers in the order of their
-- names, each named by one or more token bytes and with no control character in its value.
pub parse-IsWellFormed :
    (input : Bytes) {r : Parsed}
    → parse empty_request initial input ≡ ok r
    → r.result ≡ good
    → IsWellFormed r.req
parse-IsWellFormed input e k =
    parse-Inv input empty_request initial
      (record {
        uri_inv = refl;
        headers_inv = record { headers = tt; sorted = tt; key = refl; val = refl };
        version_inv = refl;
      })
      e k

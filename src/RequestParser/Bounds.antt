-- ===== src/RequestParser/Bounds.antt =====
-- The pointers that `parse` returns.
use web_server_development.Prelude.{
  ℕ, true, [], ◌∷◌, ◌++◌, ◌≡◌, refl, ◌≢◌, Result, ok, >>=-eq-ok, arith, ap,
}
use web_server_development.Prelude.Int.{ℤ, pos, is_zero}
use web_server_development.Text.{Bytes}
use web_server_development.Request.{Request}
use web_server_development.RequestParser.{
  State, method_start, Parser, Parsed, Consumed, ResultType, good, bad, indeterminate, consume_in,
  consume, conclude, fits, parse,
}
use web_server_development.RequestParser.Chunks.{after, parse_step}

-- The input that is left is the end of the input, and the body still to come is as long as the
-- parser has it. With `good` and `bad` it lies inside that input; with `good` there is none.
pub record InBounds (input : Bytes) (r : Parsed) : Type 0 where
  pub read : Bytes
  pub splits : input ≡ read ++ r.rest
  pub body_fits : r.result ≢ indeterminate → fits r.body_len r.rest ≡ true
  pub length_is : r.body_len ≡ r.parser.body_length
  pub good_needs_none : r.result ≡ good → r.body_len ≡ pos 0

is_zero→eq : (z : ℤ) → is_zero z ≡ true → z ≡ pos 0
is_zero→eq z h = ground arith

abbrev GoodIsDone : Result Consumed → Type 0
GoodIsDone (ok (good, q, p)) = p.body_length ≡ pos 0
GoodIsDone _ = Unit

consume_in-GoodIsDone :
    (s : State) (q : Request) (p : Parser) (c : ℕ) → GoodIsDone (consume_in s q p c)
unfolding consume_in
consume_in-GoodIsDone method_start q p c = ground arith
consume_in-GoodIsDone _ q p c = ground arith

conclude-InBounds :
    (t : ResultType) (q : Request) (p : Parser) (c : ℕ) (cs : Bytes)
    → (t ≡ good → p.body_length ≡ pos 0)
    → InBounds (c ∷ cs) (conclude t q p cs)
unfolding conclude
conclude-InBounds t q p c cs h = record {
  read = c ∷ [];
  splits = refl;
  body_fits = ground arith;
  length_is = ground arith;
  good_needs_none = ground arith;
}

InBounds-cons : {cs : Bytes} {r : Parsed} (c : ℕ) → InBounds cs r → InBounds (c ∷ cs) r
InBounds-cons c b = record {
  read = c ∷ b.read;
  splits = ap (◌∷◌ c) b.splits;
  body_fits = b.body_fits;
  length_is = b.length_is;
  good_needs_none = b.good_needs_none;
}

after-InBounds :
    (c : ℕ) (cs : Bytes) (t : Consumed) {r : Parsed}
    → ((q : Request) (p : Parser) → parse q p cs ≡ ok r → InBounds cs r)
    → GoodIsDone (ok t)
    → after cs t ≡ ok r
    → InBounds (c ∷ cs) r
after-InBounds c cs (indeterminate, q, p) ih g e = InBounds-cons c (ih q p e)
after-InBounds c cs (good, q, p) {r} ih g e =
    let same : conclude good q p cs ≡ r = cc in
    rw same at (conclude-InBounds good q p c cs (λ _. g))
after-InBounds c cs (bad, q, p) {r} ih g e =
    let same : conclude bad q p cs ≡ r = cc in rw same at (conclude-InBounds bad q p c cs (λ h. cc))

parse_end-InBounds : (q : Request) (p : Parser) {r : Parsed} → parse q p [] ≡ ok r → InBounds [] r
unfolding parse
parse_end-InBounds q p e = record {
  read = [];
  splits = ground arith;
  body_fits = ground arith;
  length_is = ground arith;
  good_needs_none = ground arith;
}

-- What `parse` leaves unread is the end of its input, and it returns the parser's `body_length`. If
-- its result is not `indeterminate`, the body that it says is still to come does not reach past the
-- end of the input, and if the result is `good` there is none to come.
pub parse-InBounds :
    (input : Bytes) (q : Request) (p : Parser) {r : Parsed}
    → parse q p input ≡ ok r
    → InBounds input r
parse-InBounds [] q p e = parse_end-InBounds q p e
parse-InBounds (c ∷ cs) q p e =
    let (t, s, later) = >>=-eq-ok (consume q p c) (after cs) (rw parse_step at e) in
    after-InBounds c cs t (λ q' p' h. parse-InBounds cs q' p' h)
      (rw s at (consume_in-GoodIsDone p.state q p c)) later

pub conclude_bad-ne-good :
    (q : Request) (p : Parser) (cs : Bytes) → (conclude bad q p cs).result ≢ good
unfolding conclude
conclude_bad-ne-good q p cs e = ground arith

pub parse_end-ne-good :
    (q : Request) (p : Parser) {r : Parsed} → parse q p [] ≡ ok r → r.result ≢ good
unfolding parse
parse_end-ne-good q p e k = ground arith

conclude_good_extends :
    (q : Request) (p : Parser) (cs ys : Bytes)
    → p.body_length ≡ pos 0
    → conclude good q p (cs ++ ys)
      ≡ record (conclude good q p cs) { rest = (conclude good q p cs).rest ++ ys }
unfolding conclude
conclude_good_extends q p cs ys z = ground arith

after_extends :
    (xs ys : Bytes) (t : Consumed) {r : Parsed}
    → ((q : Request) (p : Parser)
        → parse q p xs ≡ ok r
        → parse q p (xs ++ ys) ≡ ok (record r { rest = r.rest ++ ys }))
    → GoodIsDone (ok t)
    → after xs t ≡ ok r
    → r.result ≡ good
    → after (xs ++ ys) t ≡ ok (record r { rest = r.rest ++ ys })
after_extends xs ys (indeterminate, q, p) ih g e k = ih q p e
after_extends xs ys (good, q, p) {r} ih g e k =
    let same : conclude good q p xs ≡ r = cc in
    rw (← same) (ap ok (conclude_good_extends q p xs ys g))
after_extends xs ys (bad, q, p) {r} ih g e k =
    let same : conclude bad q p xs ≡ r = cc in absurd (conclude_bad-ne-good q p xs (rw same k))

-- A request that is complete is the same with more input behind it.
pub parse_extends :
    (xs ys : Bytes) (q : Request) (p : Parser) {r : Parsed}
    → parse q p xs ≡ ok r
    → r.result ≡ good
    → parse q p (xs ++ ys) ≡ ok (record r { rest = r.rest ++ ys })
parse_extends [] ys q p e k = absurd (parse_end-ne-good q p e k)
parse_extends (x ∷ xs) ys q p e k =
    let (t, s, later) = >>=-eq-ok (consume q p x) (after xs) (rw parse_step at e) in
    rw (parse_step, s)
      (after_extends xs ys t (λ q' p' h. parse_extends xs ys q' p' h k)
        (rw s at (consume_in-GoodIsDone p.state q p x)) later k)

-- ===== src/RequestParser/Chunks.antt =====
-- Input that arrives in pieces.
use web_server_development.Prelude.{
  ℕ, [], ◌∷◌, ◌++◌, ◌≡◌, refl, ◌≢◌, subst, Result, ok, ◌>>=◌, >>=-eq-ok,
}
use web_server_development.Text.{Bytes}
use web_server_development.Request.{Request}
use web_server_development.RequestParser.{
  Parser, Parsed, Consumed, ResultType, good, bad, indeterminate, consume, conclude, parse,
}

-- What `parse` does with the result of its first `consume`
abbrev pub after : Bytes → Consumed → Result Parsed
after cs (r, q', p') = elim r [
  | indeterminate ↦ parse q' p' cs
  | good ↦ ok (conclude good q' p' cs)
  | bad ↦ ok (conclude bad q' p' cs)
]

pub parse_step :
    (q : Request) (p : Parser) (c : ℕ) (cs : Bytes)
    → parse q p (c ∷ cs) ≡ (consume q p c >>= after cs)
unfolding parse
parse_step q p c cs = refl

append-ne-nil : (xs : Bytes) (y : ℕ) (ys : Bytes) → xs ++ y ∷ ys ≢ []
append-ne-nil [] y ys e = cc
append-ne-nil (x ∷ xs) y ys e = cc

-- What `parse` leaves of a first piece, when more than that piece is read
pub record Resumes (q : Request) (p : Parser) (xs ys : Bytes) (whole : Result Parsed) : Type 0 where
  pub half : Parsed
  pub parsed : parse q p xs ≡ ok half
  pub result_is : half.result ≡ indeterminate
  pub rest_is : half.rest ≡ []
  pub resumes : parse half.req half.parser ys ≡ whole

Resumes-cons :
    {q q' : Request} {p p' : Parser} {xs ys : Bytes} {whole : Result Parsed} (x : ℕ)
    → consume q p x ≡ ok (indeterminate, q', p')
    → Resumes q' p' xs ys whole
    → Resumes q p (x ∷ xs) ys whole
Resumes-cons {q} {p} {xs} x e r = record {
  half = r.half;
  parsed = rw (parse_step q p x xs, e) r.parsed;
  result_is = r.result_is;
  rest_is = r.rest_is;
  resumes = r.resumes;
}

conclude-rest :
    (r : ResultType) (q : Request) (p : Parser) (rest : Bytes) → (conclude r q p rest).rest ≡ rest
unfolding conclude
conclude-rest r q p rest = refl

Resumes-after :
    (xs : Bytes) (y : ℕ) (ys : Bytes) (q : Request) (p : Parser) (x : ℕ) (t : Consumed) {r : Parsed}
    → ((q' : Request) (p' : Parser)
        → parse q' p' (xs ++ y ∷ ys) ≡ ok r
        → Resumes q' p' xs (y ∷ ys) (ok r))
    → consume q p x ≡ ok t
    → after (xs ++ y ∷ ys) t ≡ ok r
    → r.rest ≡ []
    → Resumes q p (x ∷ xs) (y ∷ ys) (ok r)
Resumes-after xs y ys q p x (indeterminate, q', p') ih e h k = Resumes-cons x e (ih q' p' h)
Resumes-after xs y ys q p x (good, q', p') ih e h k =
    absurd (append-ne-nil xs y ys (cc (conclude-rest good q' p' (xs ++ y ∷ ys))))
Resumes-after xs y ys q p x (bad, q', p') ih e h k =
    absurd (append-ne-nil xs y ys (cc (conclude-rest bad q' p' (xs ++ y ∷ ys))))

-- If `parse` reads the whole of an input that is cut in two, the second part not empty, then it
-- reads the whole of the first part with the result `indeterminate`, and from the request and
-- parser that this leaves it comes on the second part to the same as on the whole input.
pub parse-append :
    (xs : Bytes) (y : ℕ) (ys : Bytes) (q : Request) (p : Parser) {r : Parsed}
    → parse q p (xs ++ y ∷ ys) ≡ ok r
    → r.rest ≡ []
    → Resumes q p xs (y ∷ ys) (ok r)
parse-append [] y ys q p e k = record {
  half = record {
    result = indeterminate;
    rest = [];
    body_len = p.body_length;
    req = q;
    parser = p;
  };
  parsed = unfold parse in refl;
  result_is = refl;
  rest_is = refl;
  resumes = e;
}
parse-append (x ∷ xs) y ys q p e k =
    let (t, s, later) = >>=-eq-ok (consume q p x) (after (xs ++ y ∷ ys)) (rw parse_step at e) in
    Resumes-after xs y ys q p x t (λ q' p' h. parse-append xs y ys q' p' h k) s later k

-- What `parse` makes of the two parts of an input that it reads whole
pub parse_later :
    (xs : Bytes) (y : ℕ) (ys : Bytes) (q : Request) (p : Parser) {r h : Parsed}
    → parse q p (xs ++ y ∷ ys) ≡ ok r
    → r.rest ≡ []
    → parse q p xs ≡ ok h
    → (h.result ≡ indeterminate) × (h.rest ≡ []) × (parse h.req h.parser (y ∷ ys) ≡ ok r)
parse_later xs y ys q p {r} {h} e d eh =
    let w = parse-append xs y ys q p e d in
    let same : w.half ≡ h = cc (eh, w.parsed) in
    (
      subst (λ (m : Parsed). m.result ≡ indeterminate) same w.result_is,
      subst (λ (m : Parsed). m.rest ≡ []) same w.rest_is,
      subst (λ (m : Parsed). parse m.req m.parser (y ∷ ys) ≡ ok r) same w.resumes,
    )

-- ===== src/Config/Accepted.antt =====
-- What the parser accepts is printable, so it survives printing and parsing.
use web_server_development.Prelude.{
  ℕ, zero, suc, Bool, true, false, List, [], ◌∷◌, ◌++◌, ◌≡◌, refl, sym, subst, if◌then◌else◌,
  length, All, ok, throws, Result, ◌>>=◌,
}
use web_server_development.Prelude.Int.{is_zero}
use web_server_development.Text.{Bytes}
use web_server_development.Config.{NginxConfig, nil, cons, Statement, simple, block, to_string}
use web_server_development.Config.Lexer.{
  TokenType, start, normal, start_block, end_block, comment, statement_end, eof, error, parse_token,
}
use web_server_development.Config.Parser.{
  emplace_back, push_token, split_back, Stack, top, popped, on_normal, on_start_block, on_end_block,
  before_normal, before_end_block, before_eof, is_normal, Loop, Round, again, accept, reject, crash,
  round, Outcome, accepted, rejected, crashed, unfinished, rounds, first_loop, parse, with_stack,
  root,
}
use web_server_development.Config.Words.{IsWord}
use web_server_development.Config.Rounds.{push_token-emplace_back, follow, rounds-after}
use web_server_development.Config.Printable.{IsPrintable, StatementIsPrintable, HasWords}
use web_server_development.Config.RoundTrip.{parse-to_string}
use web_server_development.Config.Sound.{parse_token-IsWord}

-- An open block: the statements in front of it, and its tokens
abbrev pub IsOpen : NginxConfig × List Bytes → Type 0
IsOpen (front, ts) = IsPrintable front × HasWords ts

abbrev StackIsPrintable : Stack → Type 0
StackIsPrintable (popped c) = IsPrintable c
StackIsPrintable (top c below) = IsPrintable c × All IsOpen below

-- A result, if there is one, has the property.
abbrev IsGood {ℓ} : {A : Type ℓ} → (A → Type 0) → Result A → Type 0
IsGood P (ok a) = P a
IsGood P (throws e) = Unit

All-concat {ℓ κ} :
    {A : Type ℓ} (P : A → Type κ) (xs : List A) (x : A) → All P xs → P x → All P (xs ++ x ∷ [])
All-concat P [] x h p = (p, tt)
All-concat P (y ∷ xs) x (q, h) p = (q, All-concat P xs x h p)

push-HasWords : (ts : List Bytes) (t : Bytes) → HasWords ts → IsWord t → HasWords (ts ++ t ∷ [])
push-HasWords [] t w v = absurd w
push-HasWords (u ∷ ts) t (w, ws) v = (w, All-concat IsWord ts t ws v)

emplace_back-IsPrintable :
    (c : NginxConfig) (s : Statement)
    → IsPrintable c
    → StatementIsPrintable s
    → IsPrintable (emplace_back c s)
unfolding IsPrintable emplace_back
emplace_back-IsPrintable nil s p q = (q, tt)
emplace_back-IsPrintable (cons t c) s (r, p) q = (r, emplace_back-IsPrintable c s p q)

cons-IsGood :
    (s : Statement) (m : Result NginxConfig)
    → StatementIsPrintable s
    → IsGood IsPrintable m
    → IsGood IsPrintable (do c ← m; ok (cons s c))
unfolding IsPrintable
cons-IsGood s (ok c) p h = (p, h)
cons-IsGood s (throws e) p h = tt

push_token-IsGood :
    (token : Bytes) (c : NginxConfig)
    → IsWord token
    → IsPrintable c
    → IsGood IsPrintable (push_token token c)
unfolding push_token IsPrintable
push_token-IsGood token nil w p = tt
push_token-IsGood token (cons (simple ts) nil) w (p, q) = (push-HasWords ts token p w, tt)
push_token-IsGood token (cons (block ts b) nil) w ((p, r), q) =
    ((push-HasWords ts token p w, r), tt)
push_token-IsGood token (cons (simple ts) (cons t c)) w (p, q) =
    cons-IsGood (simple ts) _ p (push_token-IsGood token (cons t c) w q)
push_token-IsGood token (cons (block ts b) (cons t c)) w (p, q) =
    cons-IsGood (block ts b) _ p (push_token-IsGood token (cons t c) w q)

front-IsGood :
    (s : Statement) (m : Result (NginxConfig × List Bytes))
    → StatementIsPrintable s
    → IsGood IsOpen m
    → IsGood IsOpen (do (front, ts) ← m; ok (cons s front, ts))
unfolding IsPrintable
front-IsGood s (ok (front, ts)) p (q, w) = ((p, q), w)
front-IsGood s (throws e) p h = tt

split_back-IsGood : (c : NginxConfig) → IsPrintable c → IsGood IsOpen (split_back c)
unfolding split_back IsPrintable
split_back-IsGood nil p = tt
split_back-IsGood (cons (simple ts) nil) (p, q) = (tt, p)
split_back-IsGood (cons (block ts b) nil) ((p, r), q) = (tt, p)
split_back-IsGood (cons (simple ts) (cons t c)) (p, q) =
    front-IsGood (simple ts) _ p (split_back-IsGood (cons t c) q)
split_back-IsGood (cons (block ts b) (cons t c)) (p, q) =
    front-IsGood (block ts b) _ p (split_back-IsGood (cons t c) q)

then-IsGood {ℓ κ} :
    {A : Type ℓ} {B : Type κ} (P : A → Type 0) (Q : B → Type 0) (m : Result A) (f : A → Result B)
    → IsGood P m
    → ((a : A) → P a → IsGood Q (f a))
    → IsGood Q (m >>= f)
then-IsGood P Q (ok a) f h k = k a h
then-IsGood P Q (throws e) f h k = tt

on_normal-IsGood :
    (fresh : Bool) (token : Bytes) (s : Stack)
    → IsWord token
    → StackIsPrintable s
    → IsGood StackIsPrintable (on_normal fresh token s)
unfolding on_normal IsPrintable
on_normal-IsGood fresh token (popped c) w p = tt
on_normal-IsGood true token (top c below) w (p, q) =
    then-IsGood IsPrintable StackIsPrintable (push_token token (emplace_back c (simple []))) _
      (rw (push_token-emplace_back token c [])
        (emplace_back-IsPrintable c (simple (token ∷ [])) p (w, tt)))
      (λ c' r. (r, q))
on_normal-IsGood false token (top c below) w (p, q) =
    then-IsGood IsPrintable StackIsPrintable _ _ (push_token-IsGood token c w p) (λ c' r. (r, q))

on_start_block-IsGood :
    (s : Stack) → StackIsPrintable s → IsGood StackIsPrintable (on_start_block s)
unfolding on_start_block IsPrintable
on_start_block-IsGood (popped c) p = tt
on_start_block-IsGood (top c below) (p, q) =
    then-IsGood IsOpen StackIsPrintable _ _ (split_back-IsGood c p) (λ a r. (tt, (r, q)))

on_end_block-IsGood : (s : Stack) → StackIsPrintable s → IsGood StackIsPrintable (on_end_block s)
unfolding on_end_block IsPrintable
on_end_block-IsGood (popped c) p = tt
on_end_block-IsGood (top c []) (p, q) = p
on_end_block-IsGood (top c ((front, ts) ∷ below)) (p, ((f, w), q)) =
    (emplace_back-IsPrintable front (block ts c) f (w, p), q)

abbrev RoundIsGood : Round → Type 0
RoundIsGood (again l) = StackIsPrintable l.stack
RoundIsGood (accept c) = IsPrintable c
RoundIsGood reject = Unit
RoundIsGood crash = Unit

with_stack-IsGood :
    (m : Result Stack) (k : Stack → Round)
    → IsGood StackIsPrintable m
    → ((s : Stack) → StackIsPrintable s → RoundIsGood (k s))
    → RoundIsGood (with_stack m k)
with_stack-IsGood (ok s) k h f = f s h
with_stack-IsGood (throws e) k h f = tt

-- A test, or `break`
or_reject : (b : Bool) (r : Round) → RoundIsGood r → RoundIsGood (if b then r else reject)
or_reject true r h = h
or_reject false r h = tt

root-IsPrintable : (s : Stack) → StackIsPrintable s → IsPrintable (root s)
root-IsPrintable (popped c) p = p
root-IsPrintable (top c below) (p, q) = p

round-IsGood :
    (type : TokenType) (value : Bytes) (l : Loop)
    → (type ≡ normal → IsWord value)
    → StackIsPrintable l.stack
    → RoundIsGood (round type value l)
unfolding round
round-IsGood error value l w p = tt
round-IsGood comment value l w p = p
round-IsGood start value l w p = tt
round-IsGood normal value l w p =
    or_reject (before_normal l.last_token_type) _
      (with_stack-IsGood _ _ (on_normal-IsGood _ value l.stack (w refl) p) (λ s q. q))
round-IsGood statement_end value l w p = or_reject (is_normal l.last_token_type) _ p
round-IsGood start_block value l w p =
    or_reject (is_normal l.last_token_type) _
      (with_stack-IsGood _ _ (on_start_block-IsGood l.stack p) (λ s q. q))
round-IsGood end_block value l w p =
    or_reject (before_end_block l.last_token_type) _
      (with_stack-IsGood _ _ (on_end_block-IsGood l.stack p) (λ s q. q))
round-IsGood eof value l w p =
    or_reject (before_eof l.last_token_type) _
      (or_reject (is_zero l.bracket_count) _ (root-IsPrintable l.stack p))

abbrev OutcomeIsGood : Outcome → Type 0
OutcomeIsGood (accepted c) = IsPrintable c
OutcomeIsGood rejected = Unit
OutcomeIsGood crashed = Unit
OutcomeIsGood unfinished = Unit

follow-IsGood :
    (fuel : ℕ) (rest : Bytes) (r : Round)
    → RoundIsGood r
    → ((l : Loop) → StackIsPrintable l.stack → OutcomeIsGood (rounds fuel l rest))
    → OutcomeIsGood (follow fuel rest r)
follow-IsGood fuel rest (again l) g h = h l g
follow-IsGood fuel rest (accept c) g h = g
follow-IsGood fuel rest reject g h = tt
follow-IsGood fuel rest crash g h = tt

rounds-IsGood :
    (fuel : ℕ) (l : Loop) (input : Bytes)
    → StackIsPrintable l.stack
    → OutcomeIsGood (rounds fuel l input)
unfolding rounds
rounds-IsGood zero l input p = tt
rounds-IsGood (suc fuel) l input p =
    let t = parse_token input in
    subst OutcomeIsGood (sym (rounds-after fuel l input)) (
      follow-IsGood fuel t.rest (round t.type t.value l)
        (round-IsGood t.type t.value l (parse_token-IsWord input) p)
        (λ l' q. rounds-IsGood fuel l' t.rest q))

-- Every configuration that the parser accepts is printable: each statement has a token, and each
-- token is a word. Printed at any depth and parsed, it is accepted again, unchanged.
pub parse-IsPrintable :
    (input : Bytes) (depth : ℕ) {c : NginxConfig}
    → parse input ≡ accepted c
    → IsPrintable c × (parse (to_string depth c) ≡ accepted c)
unfolding parse IsPrintable
parse-IsPrintable input depth {c} e =
    let p : IsPrintable c =
      subst OutcomeIsGood e (rounds-IsGood (suc (length input)) first_loop input (tt, tt)) in
    (p, parse-to_string depth c p)

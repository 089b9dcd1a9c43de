-- ===== src/Config/Port.antt =====
-- src/config_parser.cc: `parse_port`, which walks into the blocks.
use web_server_development.Prelude.{
  ℕ, List, [], ◌∷◌, ◌++◌, Option, none, some, ◌≡◌, refl, ◌∙◌, sym, ap, Result, ok, throws, ◌>>=◌,
  ◌≤◌, inl, inr, Bool-cases, Result-cases, leb, arith, if◌then◌else◌,
}
use web_server_development.Prelude.Int.{ℤ, pos, negsuc}
use web_server_development.Text.{Bytes, codes, equal}
use web_server_development.Text.Numbers.{atoi}
use web_server_development.Config.{
  NginxConfig, nil, cons, Statement, simple, block, parse_port, port_of,
}

-- The tokens of the statements that have no block, in the order of the text
mutual
  pub leaves : NginxConfig → List (List Bytes)
  leaves nil = []
  leaves (cons s rest) = statement_leaves s ++ leaves rest

  pub statement_leaves : Statement → List (List Bytes)
  statement_leaves (simple ts) = ts ∷ []
  statement_leaves (block ts c) = leaves c

-- The first answer, or the second if the first is no port
abbrev or_else : Result (Option ℕ) → Result (Option ℕ) → Result (Option ℕ)
or_else first later = first >>= λ found. elim found [ some n ↦ ok (some n) | none ↦ later ]

or_else_assoc : (a b c : Result (Option ℕ)) → or_else (or_else a b) c ≡ or_else a (or_else b c)
or_else_assoc (throws e) b c = refl
or_else_assoc (ok none) b c = refl
or_else_assoc (ok (some n)) b c = refl

-- The first valid port that a list of statements states
unfoldable pub first_port : List (List Bytes) → Result (Option ℕ)
first_port [] = ok none
first_port (ts ∷ rest) = or_else (port_of ts) (first_port rest)

first_port-append :
    (xs ys : List (List Bytes)) → first_port (xs ++ ys) ≡ or_else (first_port xs) (first_port ys)
unfolding first_port
first_port-append [] ys = refl
first_port-append (ts ∷ xs) ys =
    ap (or_else (port_of ts)) (first_port-append xs ys)
    ∙ sym (or_else_assoc (port_of ts) (first_port xs) (first_port ys))

-- The port is the first valid one that a statement with no block states, in the order of the text,
-- whatever blocks such statements stand in; a fault ends the search.
pub parse_port-first_port : (c : NginxConfig) → parse_port c ≡ first_port (leaves c)
unfolding parse_port first_port leaves
parse_port-first_port nil = refl
parse_port-first_port (cons (simple ts) rest) =
    ap (or_else (port_of ts)) (parse_port-first_port rest)
parse_port-first_port (cons (block ts b) rest) =
    ap (or_else (parse_port b)) (parse_port-first_port rest)
    ∙ ap (λ (p : Result (Option ℕ)). or_else p (first_port (leaves rest))) (parse_port-first_port b)
    ∙ sym (first_port-append (leaves b) (leaves rest))

port_of-bound : (ts : List Bytes) {n : ℕ} → port_of ts ≡ ok (some n) → n ≤ 0xffff
unfolding port_of
port_of-bound [] e = absurd (cc e)
port_of-bound (k ∷ []) e = absurd (cc e)
port_of-bound (k ∷ v ∷ u ∷ ts) e = absurd (cc e)
port_of-bound (k ∷ v ∷ []) {n} e = elim (Bool-cases (equal k (codes "port"))) [
  | inr other ↦ absurd (cc (rw other at e))
  | inl named ↦ elim (Result-cases (atoi v)) [
    | inl (x, failed) ↦ absurd (cc (rw failed at (rw named at e)))
    | inr (z, number) ↦ bounded z (rw number at (rw named at e))
  ]
]
  where
    bounded :
        (z : ℤ)
        → (elim z [ pos n ↦ ok (if leb n 0xffff then some n else none) | negsuc n ↦ ok none ])
          ≡ ok (some n)
        → n ≤ 0xffff
    bounded (negsuc m) e = absurd (cc e)
    bounded (pos m) e = elim (Bool-cases (leb m 0xffff)) [
      | inl small ↦ let same : m ≡ n = cc (rw small at e) in ground arith
      | inr large ↦ absurd (cc (rw large at e))
    ]

first_port-bound : (tss : List (List Bytes)) {n : ℕ} → first_port tss ≡ ok (some n) → n ≤ 0xffff
unfolding first_port
first_port-bound [] e = absurd (cc e)
first_port-bound (ts ∷ rest) e = elim (Result-cases (port_of ts)) [
  | inl (x, failed) ↦ absurd (cc (rw failed at e))
  | inr (none, here) ↦ first_port-bound rest (rw here at e)
  | inr (some m, here) ↦ port_of-bound ts (here ∙ (rw here at e))
]

pub parse_port-bound : (c : NginxConfig) {n : ℕ} → parse_port c ≡ ok (some n) → n ≤ 0xffff
parse_port-bound c e = first_port-bound (leaves c) (sym (parse_port-first_port c) ∙ e)

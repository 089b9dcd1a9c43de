-- ===== src/Session/Matching.antt =====
-- Which location a uri is routed to.
use web_server_development.Prelude.{
  ℕ, suc, Bool, true, false, ◌&&◌, [], ◌∷◌, ◌++◌, ◌≡◌, refl, ◌↔◌, ◌⊎◌, inl, inr, ◌∙◌, sym, ap, ok,
  arith, ltb, ◌==◌, if◌then◌else◌, length, length-append, take, drop, take-length-append,
  append-nil,
}
use web_server_development.Text.{Bytes, codes, equal, push_back, sub_size}
use web_server_development.Session.Routing.{matches}

-- The uris that a location's key takes, where `pre` is the key without its last byte: `pre`,
-- `pre` and one byte more, and what continues `pre` with a slash
abbrev pub Covers : Bytes → Bytes → Type 0
Covers pre uri =
    (uri ≡ pre)
    ⊎ (((c : ℕ) × (uri ≡ pre ++ c ∷ [])) ⊎ ((rest : Bytes) × (uri ≡ pre ++ (b'/' ∷ rest))))

covers : Bytes → Bytes → Bool
covers [] [] = true
covers [] (x ∷ []) = true
covers [] (x ∷ y ∷ r) = x == b'/'
covers (p ∷ ps) [] = false
covers (p ∷ ps) (x ∷ xs) = x == p && covers ps xs

covers→Covers : (pre uri : Bytes) → covers pre uri ≡ true → Covers pre uri
unfolding covers
covers→Covers [] [] h = inl refl
covers→Covers [] (x ∷ []) h = inr (inl (x, refl))
covers→Covers [] (x ∷ y ∷ r) h = inr (inr (y ∷ r, ground arith))
covers→Covers (p ∷ ps) [] h = cc
covers→Covers (p ∷ ps) (x ∷ xs) h = elim (covers→Covers ps xs (ground arith)) [
  | inl e ↦ inl (ground arith)
  | inr (inl (c, e)) ↦ inr (inl (c, ground arith))
  | inr (inr (rest, e)) ↦ inr (inr (rest, ground arith))
]

covers_self : (pre rest : Bytes) → covers [] rest ≡ true → covers pre (pre ++ rest) ≡ true
unfolding covers
covers_self [] rest h = h
covers_self (p ∷ ps) rest h = ground (arith, covers_self ps rest)

covers_slash : (rest : Bytes) → covers [] (b'/' ∷ rest) ≡ true
unfolding covers
covers_slash [] = refl
covers_slash (x ∷ rest) = refl

Covers→covers : (pre uri : Bytes) → Covers pre uri → covers pre uri ≡ true
Covers→covers pre uri (inl e) = rw e (rw append-nil at (covers_self pre [] (unfold covers in refl)))
Covers→covers pre uri (inr (inl (c, e))) = rw e (covers_self pre (c ∷ []) (unfold covers in refl))
Covers→covers pre uri (inr (inr (rest, e))) =
    rw e (covers_self pre (b'/' ∷ rest) (covers_slash rest))

-- What the tests of `matches` come to, for a key of one byte more than `pre`
tested : Bytes → Bytes → Bool
tested pre uri =
    (if ltb (suc (length pre)) (length uri)
      then equal (take 1 (drop (length pre) uri)) (codes "/")
      else true)
    && equal (take (length pre) uri) pre

tested-covers : (pre uri : Bytes) → tested pre uri ≡ covers pre uri
unfolding tested covers equal
tested-covers [] [] = ground arith
tested-covers [] (x ∷ []) = ground arith
tested-covers [] (x ∷ y ∷ r) = ground arith
tested-covers (p ∷ ps) [] = ground arith
tested-covers (p ∷ ps) (x ∷ xs) = ground (arith, tested-covers ps xs)

matches-tested : (pre uri : Bytes) (c : ℕ) → matches uri (push_back pre c) ≡ ok (tested pre uri)
unfolding matches tested
matches-tested pre uri c = rw (size, matches) (rw take-length-append (rw len (ground arith)))
  where
    len : length (push_back pre c) ≡ suc (length pre)
    len = omega (arith, length-append pre (c ∷ []))

    size : sub_size (length (push_back pre c)) 1 ≡ length pre
    size = ground (arith, len)

-- `matches` returns for every key that is not empty, and is true of the uris that the key takes.
-- The last byte of the key, a slash in the server's own configurations, is never compared.
pub matches_iff :
    (pre uri : Bytes) (c : ℕ)
    → ((b : Bool) × (matches uri (push_back pre c) ≡ ok b))
      × ((matches uri (push_back pre c) ≡ ok true) ↔ Covers pre uri)
matches_iff pre uri c =
    let e = matches-tested pre uri c ∙ ap ok (tested-covers pre uri) in
    (
      (covers pre uri, e),
      (
        (λ h. covers→Covers pre uri (ok-injective (sym e ∙ h))),
        (λ h. e ∙ ap ok (Covers→covers pre uri h)),
      ),
    )
  where
    ok-injective : {a b : Bool} → ok a ≡ ok b → a ≡ b
    ok-injective h = cc

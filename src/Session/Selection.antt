-- ===== src/Session/Selection.antt =====
-- Which of the matching locations a uri is routed to.
use web_server_development.Prelude.{
  ℕ, ◌≤◌, ◌<◌, Bool, true, false, List, [], ◌∷◌, ◌≡◌, refl, ◌≢◌, ◌⊎◌, inl, inr, ◌∙◌, sym, ap, ok,
  arith, ltb, ltb→lt, ltb_false→le, length, Bool-cases,
}
use web_server_development.Text.{Bytes, push_back}
use web_server_development.Session.Routing.{
  RequestHandler, Locations, matches, Best, no_match, improve, select,
}
use web_server_development.Session.Matching.{matches_iff}

-- The key stands in the map.
abbrev pub HasKey {ℓ} : {V : Type ℓ} → Bytes → List (Bytes × V) → Type 0
HasKey k [] = ⊥
HasKey k ((j, _) ∷ m) = (j ≡ k) ⊎ HasKey k m

-- No key of the map is empty.
abbrev pub NoEmptyKey {ℓ} : {V : Type ℓ} → List (Bytes × V) → Type 0
NoEmptyKey [] = Unit
NoEmptyKey ((j, _) ∷ m) = (j ≢ []) × NoEmptyKey m

true-ne-false : true ≢ false
true-ne-false e = cc

split_last : (k : Bytes) → k ≢ [] → (pre : Bytes) × ((c : ℕ) × (k ≡ push_back pre c))
split_last [] ne = absurd (ne refl)
split_last (x ∷ []) ne = ([], (x, refl))
split_last (x ∷ y ∷ k) ne =
    let (pre, (c, e)) = split_last (y ∷ k) (λ h. cc) in (x ∷ pre, (c, ap (◌∷◌ x) e))

matches_total : (uri key : Bytes) → key ≢ [] → (b : Bool) × (matches uri key ≡ ok b)
matches_total uri key ne = let (pre, (c, e)) = split_last key ne in rw e (matches_iff pre uri c).0

-- Every key of the map that takes the uri has at most this length.
abbrev pub Longest {ℓ} : {V : Type ℓ} → Bytes → ℕ → List (Bytes × V) → Type 0
Longest uri n [] = Unit
Longest uri n ((j, _) ∷ m) = (matches uri j ≡ ok true → length j ≤ n) × Longest uri n m

-- No key of the map takes the uri.
abbrev pub NoneMatches {ℓ} : {V : Type ℓ} → Bytes → List (Bytes × V) → Type 0
NoneMatches uri [] = Unit
NoneMatches uri ((j, _) ∷ m) = (matches uri j ≡ ok false) × NoneMatches uri m

-- A key of the map that takes the uri, and is as long as any that does
pub record IsLongestMatch (uri : Bytes) (m : Locations) (key : Bytes) : Type 0 where
  pub present : HasKey key m
  pub matching : matches uri key ≡ ok true
  pub longest : Longest uri (length key) m

-- What the loop makes of a value that it has found before it comes to `m`
data Selects (uri : Bytes) (m : Locations) (b : Best) : Best → Type 0 where
  keeps :
      {b' : Best}
      → b' ≡ b
      → (b.matched ≡ true → Longest uri b.max_matched_length m)
      → (b.matched ≡ false → NoneMatches uri m)
      → Selects uri m b b'
  finds :
      {b' : Best}
      → b'.matched ≡ true
      → b'.max_matched_length ≡ length b'.max_matched_key
      → b.max_matched_length ≤ b'.max_matched_length
      → IsLongestMatch uri m b'.max_matched_key
      → Selects uri m b b'

-- A length is held only of a match.
abbrev IsHonest : Best → Type 0
IsHonest b = b.matched ≡ false → b.max_matched_length ≡ 0

length_pos : (k : Bytes) → k ≢ [] → 0 < length k
length_pos [] ne = absurd (ne refl)
length_pos (c ∷ k) ne = omega arith

module _ {uri : Bytes} {m : Locations} (k : Bytes) (r : RequestHandler) where
  IsLongestMatch-cons :
      {key : Bytes}
      → (matches uri k ≡ ok true → length k ≤ length key)
      → IsLongestMatch uri m key
      → IsLongestMatch uri ((k, r) ∷ m) key
  IsLongestMatch-cons bound l = record {
    present = inr l.present;
    matching = l.matching;
    longest = (bound, l.longest);
  }

  Selects-miss :
      {b b' : Best} → matches uri k ≡ ok false → Selects uri m b b' → Selects uri ((k, r) ∷ m) b b'
  Selects-miss misses (keeps e l n) = keeps e (λ t. ((λ hits. cc), l t)) (λ f. (misses, n f))
  Selects-miss misses (finds t len le l) = finds t len le (IsLongestMatch-cons (λ hits. cc) l)

  -- A longer key takes the place of the one found before.
  Selects-better :
      (b : Best) {b' : Best}
      → matches uri k ≡ ok true
      → b.max_matched_length < length k
      → Selects uri m
          (record { matched = true; max_matched_length = length k; max_matched_key = k })
          b'
      → Selects uri ((k, r) ∷ m) b b'
  Selects-better b hits lt (keeps e l n) =
      let here : IsLongestMatch uri ((k, r) ∷ m) k = record {
        present = inl refl;
        matching = hits;
        longest = ((λ _. omega arith), l refl);
      } in
      rw e (finds refl refl (omega arith) here)
  Selects-better b hits lt (finds t len le l) =
      finds t len (omega arith) (IsLongestMatch-cons (λ _. omega arith) l)

  -- A key that is no longer leaves the one found before in place.
  Selects-worse :
      (b : Best) {b' : Best}
      → b.matched ≡ true
      → length k ≤ b.max_matched_length
      → Selects uri m b b'
      → Selects uri ((k, r) ∷ m) b b'
  Selects-worse b known le (keeps e l n) =
      keeps e (λ t. ((λ _. le), l t)) (λ f. absurd (true-ne-false (sym known ∙ f)))
  Selects-worse b known le (finds t len le' l) =
      finds t len le' (IsLongestMatch-cons (λ _. omega arith) l)

improve_better :
    (b : Best) (k : Bytes)
    → ltb b.max_matched_length (length k) ≡ true
    → improve b k ≡ record { matched = true; max_matched_length = length k; max_matched_key = k }
unfolding improve
improve_better b k h = rw (h, improve)

improve_worse :
    (b : Best) (k : Bytes)
    → b.matched ≡ true
    → ltb b.max_matched_length (length k) ≡ false
    → improve b k ≡ b
unfolding improve
improve_worse b k known h = ground arith

known_of :
    (b : Best) (k : Bytes)
    → IsHonest b
    → k ≢ []
    → length k ≤ b.max_matched_length
    → b.matched ≡ true
known_of b k h ne le = elim (Bool-cases b.matched) [
  | inl known ↦ known
  | inr unknown ↦ absurd (omega (arith, length_pos k ne, h unknown))
]

abbrev Selected : Bytes → Locations → Best → Type 0
Selected uri m b = (b' : Best) × ((select uri m b ≡ ok b') × Selects uri m b b')

select_miss :
    (uri k : Bytes) (r : RequestHandler) (m : Locations) (b : Best)
    → matches uri k ≡ ok false
    → Selected uri m b
    → Selected uri ((k, r) ∷ m) b
unfolding select
select_miss uri k r m b misses (b', (done, sel)) =
    (b', (rw (misses, select) done, Selects-miss k r misses sel))

select_better :
    (uri k : Bytes) (r : RequestHandler) (m : Locations) (b : Best)
    → matches uri k ≡ ok true
    → ltb b.max_matched_length (length k) ≡ true
    → Selected uri m (record { matched = true; max_matched_length = length k; max_matched_key = k })
    → Selected uri ((k, r) ∷ m) b
unfolding select
select_better uri k r m b hits longer (b', (done, sel)) = (
  b',
  (
    rw (hits, select) (rw (improve_better b k longer) done),
    Selects-better k r b hits (ltb→lt _ _ longer) sel,
  ),
)

select_worse :
    (uri k : Bytes) (r : RequestHandler) (m : Locations) (b : Best)
    → matches uri k ≡ ok true
    → b.matched ≡ true
    → ltb b.max_matched_length (length k) ≡ false
    → Selected uri m b
    → Selected uri ((k, r) ∷ m) b
unfolding select
select_worse uri k r m b hits known shorter (b', (done, sel)) = (
  b',
  (
    rw (hits, select) (rw (improve_worse b k known shorter) done),
    Selects-worse k r b known (ltb_false→le _ _ shorter) sel,
  ),
)

select-Selected :
    (uri : Bytes) (m : Locations) (b : Best) → NoEmptyKey m → IsHonest b → Selected uri m b
select-Selected uri [] b ne h = (b, (unfold select in refl, keeps refl (λ _. tt) (λ _. tt)))
select-Selected uri ((k, r) ∷ m) b (ne, nes) h = elim (hit_cases (matches_total uri k ne)) [
  | inr misses ↦ select_miss uri k r m b misses (select-Selected uri m b nes h)
  | inl hits ↦ elim (Bool-cases (ltb b.max_matched_length (length k))) [
    | inl longer ↦ select_better uri k r m b hits longer (select-Selected uri m _ nes (λ f. cc))
    | inr shorter ↦
        select_worse uri k r m b hits (known_of b k h ne (ltb_false→le _ _ shorter)) shorter
          (select-Selected uri m b nes h)
  ]
]
  where
    hit_cases :
        ((b : Bool) × (matches uri k ≡ ok b))
        → (matches uri k ≡ ok true) ⊎ (matches uri k ≡ ok false)
    hit_cases (true, e) = inl e
    hit_cases (false, e) = inr e

-- What the loop over the locations finds: a longest key that takes the uri, or that none does
pub data Chosen (uri : Bytes) (m : Locations) (b : Best) : Type 0 where
  found : b.matched ≡ true → IsLongestMatch uri m b.max_matched_key → Chosen uri m b
  missed : b.matched ≡ false → NoneMatches uri m → Chosen uri m b

Selects-Chosen :
    {uri : Bytes} {m : Locations} {b : Best} → Selects uri m no_match b → Chosen uri m b
Selects-Chosen (keeps e l n) = rw e (missed refl (n refl))
Selects-Chosen (finds t len le l) = found t l

-- Where no key of the map is empty, the loop over the locations returns, and it finds a longest
-- one of the keys that take the uri, or says that no key does.
pub select-Chosen :
    (uri : Bytes) (m : Locations)
    → NoEmptyKey m
    → (b : Best) × ((select uri m no_match ≡ ok b) × Chosen uri m b)
select-Chosen uri m ne =
    let (b, (done, sel)) = select-Selected uri m no_match ne (λ _. refl) in
    (b, (done, Selects-Chosen sel))

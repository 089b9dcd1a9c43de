-- ===== src/Text/Search.antt =====
-- `std::string::find` and `rfind`, with `none` for `npos`.
use web_server_development.Prelude.{
  ℕ, suc, ◌+◌, ◌≤◌, Bool, true, false, ◌&&◌, [], ◌∷◌, ◌++◌, Option, none, some, ◌≡◌, refl, arith,
  ◌==◌, if◌then◌else◌, length, drop, all, not, Bool-cases, Option-cases, inl, inr, ap, ap₂, sym,
  ◌∙◌, ok, length-append, drop-length-append, append_assoc, le→ltb_false,
}
use web_server_development.Text.{Bytes, push_back, substr_from}

unfoldable pub is_prefix : Bytes → Bytes → Bool
is_prefix [] s = true
is_prefix (p ∷ ps) [] = false
is_prefix (p ∷ ps) (c ∷ cs) = p == c && is_prefix ps cs

-- `s.find(pat)`
unfoldable pub find_text : Bytes → Bytes → Option ℕ
unfolding is_prefix
find_text pat [] = if is_prefix pat [] then some 0 else none
find_text pat (c ∷ cs) =
    let later = find_text pat cs in
    if is_prefix pat (c ∷ cs) then some 0 else elim later [ none ↦ none | some i ↦ some (suc i) ]

-- `s.rfind(pat)`
unfoldable pub rfind_text : Bytes → Bytes → Option ℕ
unfolding is_prefix
rfind_text pat [] = if is_prefix pat [] then some 0 else none
rfind_text pat (c ∷ cs) = elim (rfind_text pat cs) [
  | some i ↦ some (suc i)
  | none ↦ if is_prefix pat (c ∷ cs) then some 0 else none
]

pub is_prefix-append : (p s : Bytes) → is_prefix p (p ++ s) ≡ true
unfolding is_prefix
is_prefix-append [] s = refl
is_prefix-append (c ∷ p) s = ground (arith, is_prefix-append p s)

-- A prefix is split off by its length.
pub is_prefix-split : (p s : Bytes) → is_prefix p s ≡ true → s ≡ p ++ drop (length p) s
unfolding is_prefix
is_prefix-split [] s h = refl
is_prefix-split (c ∷ p) [] h = cc
is_prefix-split (c ∷ p) (d ∷ s) h = ground (arith, is_prefix-split p s)

-- The parts of a text in front of an occurrence at `i`, and behind it
pub record SplitsAt (pat s : Bytes) (i : ℕ) : Type 0 where
  pub front : Bytes
  pub behind : Bytes
  pub splits : s ≡ front ++ (pat ++ behind)
  pub index_is : i ≡ length front

pub rfind_text-SplitsAt : (pat s : Bytes) {i : ℕ} → rfind_text pat s ≡ some i → SplitsAt pat s i
unfolding rfind_text
rfind_text-SplitsAt pat [] e = elim (Bool-cases (is_prefix pat [])) [
  | inl hit ↦ record {
    front = [];
    behind = drop (length pat) [];
    splits = is_prefix-split pat [] hit;
    index_is = ground arith;
  }
  | inr miss ↦ absurd (ground arith)
]
rfind_text-SplitsAt pat (c ∷ cs) e = elim (Option-cases (rfind_text pat cs)) [
  | inl none_later ↦ elim (Bool-cases (is_prefix pat (c ∷ cs))) [
    | inl hit ↦ record {
      front = [];
      behind = drop (length pat) (c ∷ cs);
      splits = is_prefix-split pat (c ∷ cs) hit;
      index_is = ground arith;
    }
    | inr miss ↦ absurd (ground arith)
  ]
  | inr (j, later) ↦
      let s = rfind_text-SplitsAt pat cs later in
      record {
        front = c ∷ s.front;
        behind = s.behind;
        splits = ap (◌∷◌ c) s.splits;
        index_is = ground (arith, s.index_is);
      }
]

pub substr_from-append :
    (front behind : Bytes) → substr_from (front ++ behind) (length front) ≡ ok behind
unfolding substr_from
substr_from-append front behind = rw (drop-length-append front behind) (
    rw (
      le→ltb_false (length (front ++ behind)) (length front)
        (omega (arith, length-append front behind))))

-- `substr` from behind an occurrence does not throw.
pub substr_from-behind :
    (pat s : Bytes) {i : ℕ} (at : SplitsAt pat s i) → substr_from s (i + length pat) ≡ ok at.behind
substr_from-behind pat s {i} at =
    let whole : s ≡ (at.front ++ pat) ++ at.behind =
      at.splits ∙ sym (append_assoc at.front pat at.behind) in
    let index : i + length pat ≡ length (at.front ++ pat) =
      omega (arith, length-append at.front pat, at.index_is) in
    ap₂ substr_from whole index ∙ substr_from-append (at.front ++ pat) at.behind

-- `substr` from an occurrence does not throw either.
pub substr_from-occurrence :
    (pat s : Bytes) {i : ℕ} (at : SplitsAt pat s i) → substr_from s i ≡ ok (pat ++ at.behind)
substr_from-occurrence pat s at =
    ap₂ substr_from at.splits at.index_is ∙ substr_from-append at.front (pat ++ at.behind)

pub find_text-front : (pat s : Bytes) → find_text pat (pat ++ s) ≡ some 0
unfolding find_text is_prefix
find_text-front [] [] = refl
find_text-front [] (c ∷ s) = refl
find_text-front (p ∷ pat) s = rw (is_prefix-append (p ∷ pat) s) refl

-- The byte does not occur.
abbrev pub lacks : ℕ → Bytes → Bool
lacks d s = all (λ c. not (c == d)) s

-- A text is found behind a part that lacks its first byte.
pub find_text-behind :
    (p : ℕ) (pat front rest : Bytes)
    → lacks p front ≡ true
    → find_text (p ∷ pat) (front ++ ((p ∷ pat) ++ rest)) ≡ some (length front)
unfolding find_text is_prefix
find_text-behind p pat [] rest h = rw (is_prefix-append (p ∷ pat) rest) refl
find_text-behind p pat (c ∷ front) rest h = ground (arith, find_text-behind p pat front rest)

pub find_text-lacks :
    (p : ℕ) (pat front s : Bytes) {i : ℕ}
    → lacks p front ≡ true
    → find_text (p ∷ pat) s ≡ some i
    → find_text (p ∷ pat) (front ++ s) ≡ some (length front + i)
unfolding find_text is_prefix
find_text-lacks p pat [] s {i} h e = e ∙ ap some (omega arith)
find_text-lacks p pat (c ∷ front) s h e =
    ground (arith, find_text-lacks p pat front s (ground arith) e)

-- A long enough text has the prefix whatever comes behind it.
is_prefix-long : (p s t : Bytes) → length p ≤ length s → is_prefix p (s ++ t) ≡ is_prefix p s
unfolding is_prefix
is_prefix-long [] s t h = refl
is_prefix-long (c ∷ p) [] t h = absurd (omega arith)
is_prefix-long (c ∷ p) (d ∷ s) t h =
    ap (λ (b : Bool). c == d && b) (is_prefix-long p s t (omega arith))

find_text-miss :
    (d : ℕ) (s pat : Bytes) {i : ℕ}
    → is_prefix pat (d ∷ s) ≡ false
    → find_text pat s ≡ some i
    → find_text pat (d ∷ s) ≡ some (suc i)
unfolding find_text
find_text-miss d s pat miss later = rw miss (rw later refl)

no_start :
    (d : ℕ) (s pat : Bytes)
    → find_text pat (d ∷ s) ≡ none
    → (is_prefix pat (d ∷ s) ≡ false) × (find_text pat s ≡ none)
unfolding find_text
no_start d s pat h = elim (Bool-cases (is_prefix pat (d ∷ s))) [
  | inl hit ↦ absurd (cc (rw hit at h))
  | inr miss ↦ elim (Option-cases (find_text pat s)) [
    | inl absent ↦ (miss, absent)
    | inr (i, later) ↦ absurd (cc (rw later at (rw miss at h)))
  ]
]

-- A text is found behind a part in which none of its occurrences begins.
pub find_text-first :
    (start : Bytes) (c : ℕ) (front rest : Bytes)
    → find_text (push_back start c) (front ++ start) ≡ none
    → find_text (push_back start c) (front ++ (push_back start c ++ rest)) ≡ some (length front)
find_text-first start c [] rest h = find_text-front (push_back start c) rest
find_text-first start c (d ∷ front) rest h =
    let pat = push_back start c in
    let apart : (d ∷ (front ++ start)) ++ c ∷ rest ≡ d ∷ (front ++ (pat ++ rest)) = ap (◌∷◌ d) (
      append_assoc front start (c ∷ rest)
      ∙ ap (λ (s : Bytes). front ++ s) (sym (append_assoc start (c ∷ []) rest))) in
    let same : is_prefix pat (d ∷ (front ++ (pat ++ rest))) ≡ is_prefix pat (d ∷ (front ++ start)) =
      sym (ap (is_prefix pat) apart)
      ∙ is_prefix-long pat (d ∷ (front ++ start)) (c ∷ rest)
          (omega (arith, length-append front start, length-append start (c ∷ []))) in
    find_text-miss d (front ++ (pat ++ rest)) pat (same ∙ (no_start d (front ++ start) pat h).0)
      (find_text-first start c front rest (no_start d (front ++ start) pat h).1)

is_prefix-length : (p s : Bytes) → is_prefix p s ≡ true → length p ≤ length s
unfolding is_prefix
is_prefix-length [] s h = omega arith
is_prefix-length (c ∷ p) [] h = absurd (cc h)
is_prefix-length (c ∷ p) (d ∷ s) h = ground (arith, is_prefix-length p s)

-- What is found lies in the text.
pub find_text-length :
    (pat s : Bytes) {i : ℕ} → find_text pat s ≡ some i → i + length pat ≤ length s
unfolding find_text
find_text-length pat [] {i} e = elim (Bool-cases (is_prefix pat [])) [
  | inl hit ↦ let at : 0 ≡ i = cc (rw hit at e) in omega (arith, is_prefix-length pat [] hit)
  | inr miss ↦ absurd (cc (rw miss at e))
]
find_text-length pat (c ∷ s) {i} e = elim (Bool-cases (is_prefix pat (c ∷ s))) [
  | inl hit ↦ let at : 0 ≡ i = cc (rw hit at e) in omega (arith, is_prefix-length pat (c ∷ s) hit)
  | inr miss ↦ elim (Option-cases (find_text pat s)) [
    | inl absent ↦ absurd (cc (rw absent at (rw miss at e)))
    | inr (j, later) ↦
        let at : suc j ≡ i = cc (rw later at (rw miss at e)) in
        omega (arith, find_text-length pat s later)
  ]
]

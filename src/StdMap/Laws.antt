-- ===== src/StdMap/Laws.antt =====
-- The order of the keys is kept, and the lookups see the writes.
use web_server_development.Prelude.{
  true, false, [], ◌∷◌, none, some, if◌then◌else◌, ◌≡◌, refl, arith, All, Bool-cases, inl, inr,
  subst,
}
use mathlib.Core.Option.{some-injective}
use web_server_development.Text.{Bytes, equal, less}
use web_server_development.Text.Laws.{equal_iff, less_trans, less_irrefl, less_total}
use web_server_development.StdMap.{StdMap, find, assign, insert}

module _ {ℓ} {V : Type ℓ} where
  -- Every key of the map stands above `k`.
  abbrev pub Above : Bytes → StdMap V → Type 0
  Above k [] = Unit
  Above k ((j, v) ∷ m) = (less k j ≡ true) × Above k m

  -- The keys rise.
  abbrev pub IsSorted : StdMap V → Type 0
  IsSorted [] = Unit
  IsSorted ((j, v) ∷ m) = Above j m × IsSorted m

  pub find-assign :
      (k j : Bytes) (v : V) (m : StdMap V)
      → find j (assign k v m) ≡ (if equal k j then some v else find j m)
  unfolding find assign
  find-assign k j v [] = refl
  find-assign k j v ((i, w) ∷ m) =
      ground (arith, equal_iff k j, equal_iff i k, equal_iff i j, find-assign k j v m)

  pub Above-trans : (k j : Bytes) (m : StdMap V) → less k j ≡ true → Above j m → Above k m
  Above-trans k j [] h a = tt
  Above-trans k j ((i, v) ∷ m) h (b, a) = (less_trans k j i h b, Above-trans k j m h a)

  Above-insert :
      (i k : Bytes) (v : V) (m : StdMap V) → less i k ≡ true → Above i m → Above i (insert k v m)
  unfolding insert
  Above-insert i k v [] h a = (h, tt)
  Above-insert i k v ((j, w) ∷ m) h (b, a) = ground (arith, Above-insert i k v m h a)

  pub insert-IsSorted : (k : Bytes) (v : V) (m : StdMap V) → IsSorted m → IsSorted (insert k v m)
  unfolding insert
  insert-IsSorted k v [] s = (tt, tt)
  insert-IsSorted k v ((j, w) ∷ m) (a, s) = ground (
    arith,
    equal_iff j k,
    less_total k j,
    Above-trans k j m,
    Above-insert j k v m,
    insert-IsSorted k v m s,
    a,
  )

module _ {ℓ κ} {V : Type ℓ} (P : Bytes × V → Type κ) where
  pub All-insert : (k : Bytes) (v : V) (m : StdMap V) → P (k, v) → All P m → All P (insert k v m)
  unfolding insert
  All-insert k v [] p a = (p, tt)
  All-insert k v ((j, w) ∷ m) p (b, a) = ground (arith, All-insert k v m p a)

  pub All-assign : (k : Bytes) (v : V) (m : StdMap V) → P (k, v) → All P m → All P (assign k v m)
  unfolding assign
  All-assign k v [] p a = (p, tt)
  All-assign k v ((j, w) ∷ m) p (b, a) = ground (arith, All-assign k v m p a)

  -- A value that is found has the property, under a key that equals the one looked for.
  pub All-find : (k : Bytes) {v : V} (m : StdMap V) → All P m → find k m ≡ some v → P (k, v)
  unfolding find
  All-find k [] a e = absurd (ground arith)
  All-find k {v} ((j, w) ∷ m) (b, a) e = elim (Bool-cases (equal j k)) [
    | inl same ↦
        let value : w ≡ v = some-injective w v (rw same at e) in
        subst (λ (i : Bytes). P (i, v)) ((equal_iff j k).0 same)
          (subst (λ (u : V). P (j, u)) value b)
    | inr other ↦ All-find k m a (rw (other, find) at e)
  ]

module _ {ℓ} {V : Type ℓ} where
  pub find-Above : (j : Bytes) (m : StdMap V) → Above j m → find j m ≡ none
  unfolding find
  find-Above j [] a = refl
  find-Above j ((i, w) ∷ m) (b, a) = elim (Bool-cases (equal i j)) [
    | inl same ↦ absurd (
        ground
          (arith, less_irrefl j, subst (λ (k : Bytes). less j k ≡ true) ((equal_iff i j).0 same) b))
    | inr other ↦ rw other (find-Above j m a)
  ]

  -- The first value under a key stays.
  find-insert :
      (k j : Bytes) (v : V) (m : StdMap V)
      → IsSorted m
      → find j (insert k v m)
        ≡ elim (find j m) [ some w ↦ some w | none ↦ if equal k j then some v else none ]
  unfolding find insert
  find-insert k j v [] s = refl
  find-insert k j v ((i, w) ∷ m) (a, s) =
      let lemma_below : less k i ≡ true → equal k j ≡ true → find j m ≡ none = λ b e.
        find-Above j m
          (Above-trans j i m (subst (λ (x : Bytes). less x i ≡ true) ((equal_iff k j).0 e) b) a) in
      let not_here : less k i ≡ true → equal k j ≡ true → equal i j ≡ false = λ b e. ground (
        arith,
        equal_iff k j,
        equal_iff i j,
        less_irrefl i,
        b,
        e,
        subst (λ (x : Bytes). less x i ≡ true) ((equal_iff k j).0 e) b,
      ) in
      ground (
        arith,
        equal_iff i k,
        equal_iff k j,
        equal_iff i j,
        find-insert k j v m s,
        lemma_below,
        not_here,
      )

  module _ (k j : Bytes) (v : V) (m : StdMap V) (s : IsSorted m) where
    pub find-insert_present : {w : V} → find j m ≡ some w → find j (insert k v m) ≡ some w
    find-insert_present e = ground (arith, find-insert k j v m s)

    pub find-insert_same : find j m ≡ none → equal k j ≡ true → find j (insert k v m) ≡ some v
    find-insert_same e f = ground (arith, find-insert k j v m s)

    pub find-insert_other : find j m ≡ none → equal k j ≡ false → find j (insert k v m) ≡ none
    find-insert_other e f = ground (arith, find-insert k j v m s)

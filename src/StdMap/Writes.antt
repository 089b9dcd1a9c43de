-- ===== src/StdMap/Writes.antt =====
-- What a write and an erasure leave of a map in order.
use web_server_development.Prelude.{
  true, [], ◌∷◌, ◌++◌, none, refl, if◌then◌else◌, ◌≡◌, arith, All, Bool-cases, inl, inr, subst,
}
use web_server_development.Text.{Bytes, equal, less}
use web_server_development.Text.Laws.{equal_iff, less_total, less_asymm, less_irrefl}
use web_server_development.StdMap.{StdMap, find, assign, erase}
use web_server_development.StdMap.Laws.{Above, IsSorted, Above-trans, find-Above}

module _ {ℓ} {V : Type ℓ} where
  Above-assign :
      (i k : Bytes) (v : V) (m : StdMap V) → less i k ≡ true → Above i m → Above i (assign k v m)
  unfolding assign
  Above-assign i k v [] h a = (h, tt)
  Above-assign i k v ((j, w) ∷ m) h (b, a) = ground (arith, Above-assign i k v m h a)

  pub assign-IsSorted : (k : Bytes) (v : V) (m : StdMap V) → IsSorted m → IsSorted (assign k v m)
  unfolding assign
  assign-IsSorted k v [] s = (tt, tt)
  assign-IsSorted k v ((j, w) ∷ m) (a, s) = ground (
    arith,
    equal_iff j k,
    less_total k j,
    Above-trans k j m,
    Above-assign j k v m,
    assign-IsSorted k v m s,
    a,
  )

  Above-erase : (i k : Bytes) (m : StdMap V) → Above i m → Above i (erase k m)
  unfolding erase
  Above-erase i k [] a = tt
  Above-erase i k ((j, w) ∷ m) (b, a) = ground (arith, Above-erase i k m a)

  pub erase-IsSorted : (k : Bytes) (m : StdMap V) → IsSorted m → IsSorted (erase k m)
  unfolding erase
  erase-IsSorted k [] s = tt
  erase-IsSorted k ((j, w) ∷ m) (a, s) = ground (arith, Above-erase j k m a, erase-IsSorted k m s)

  pub find-erase :
      (k j : Bytes) (m : StdMap V)
      → IsSorted m
      → find j (erase k m) ≡ (if equal k j then none else find j m)
  unfolding find erase
  find-erase k j [] s = ground arith
  find-erase k j ((i, w) ∷ m) (a, s) = elim (Bool-cases (equal i k)) [
    | inl same ↦
        let above : Above k m = subst (λ (x : Bytes). Above x m) ((equal_iff i k).0 same) a in
        ground (arith, same, equal_iff i k, equal_iff i j, equal_iff k j, find-Above k m above)
    | inr other ↦
        ground (arith, other, equal_iff i k, equal_iff i j, equal_iff k j, find-erase k j m s)
  ]

module _ {ℓ κ} {V : Type ℓ} (P : Bytes × V → Type κ) where
  pub All-erase : (k : Bytes) (m : StdMap V) → All P m → All P (erase k m)
  unfolding erase
  All-erase k [] a = tt
  All-erase k ((j, w) ∷ m) (p, a) = ground (arith, All-erase k m a)

module _ {ℓ} {V : Type ℓ} where
  pub Above-middle :
      (j k : Bytes) (v : V) (h m : StdMap V) → Above j (h ++ (k, v) ∷ m) → less j k ≡ true
  Above-middle j k v [] m (b, a) = b
  Above-middle j k v (x ∷ h) m (b, a) = Above-middle j k v h m a

  -- A key above all others is written behind them.
  pub assign_last :
      (h : StdMap V) (k : Bytes) (v : V) (m : StdMap V)
      → IsSorted (h ++ (k, v) ∷ m)
      → assign k v h ≡ h ++ (k, v) ∷ []
  unfolding assign
  assign_last [] k v m s = refl
  assign_last ((j, w) ∷ h) k v m (a, s) =
      let below = Above-middle j k v h m a in
      ground
        (arith, below, less_asymm j k below, equal_iff j k, less_irrefl j, assign_last h k v m s)

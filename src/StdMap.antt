-- ===== src/StdMap.antt =====
-- `std::map` with integer keys, as an association list: `find`, `m[key] = value` and `erase`.
use proto_rpc.Prelude.{
  ℕ, ◌≡◌, ◌≢◌, refl, Option, none, some, List, [], ◌∷◌, ◌==◌, if◌then◌else◌, arith, Bool-cases,
  ==_iff, inl, inr,
}

module _ {V : Type 0} where
  unfoldable pub find : ℕ → List (ℕ × V) → Option V
  find k [] = none
  find k ((j, v) ∷ m) = if j == k then some v else find k m

  unfoldable pub assign : ℕ → V → List (ℕ × V) → List (ℕ × V)
  assign k v [] = (k, v) ∷ []
  assign k v ((j, u) ∷ m) = if j == k then (k, v) ∷ m else (j, u) ∷ assign k v m

  unfoldable pub erase : ℕ → List (ℕ × V) → List (ℕ × V)
  erase k [] = []
  erase k ((j, u) ∷ m) = if j == k then m else (j, u) ∷ erase k m

-- A predicate on the keys, and that no key stands twice.
abbrev pub AllKeys {ℓ} : {V : Type 0} → (ℕ → Type ℓ) → List (ℕ × V) → Type ℓ
AllKeys P [] = Unit
AllKeys P ((j, v) ∷ m) = P j × AllKeys P m

abbrev pub Distinct : {V : Type 0} → List (ℕ × V) → Type 0
Distinct [] = Unit {0}
Distinct ((j, v) ∷ m) = AllKeys (λ k. j ≢ k) m × Distinct m

module _ {V : Type 0} where
  pub find-assign :
      (k j : ℕ) (v : V) (m : List (ℕ × V))
      → find j (assign k v m) ≡ (if k == j then some v else find j m)
  unfolding find assign
  find-assign k j v [] = refl
  find-assign k j v ((i, u) ∷ m) = ground (arith, find-assign k j v m)

  pub find_absent : (k : ℕ) (m : List (ℕ × V)) → AllKeys (λ j. j ≢ k) m → find k m ≡ none
  unfolding find
  find_absent k [] h = refl
  find_absent k ((i, u) ∷ m) h = ground (arith, find_absent k m h.1)

  pub find-none-AllKeys : (k : ℕ) (m : List (ℕ × V)) → find k m ≡ none → AllKeys (λ j. j ≢ k) m
  unfolding find
  find-none-AllKeys k [] h = tt
  find-none-AllKeys k ((i, u) ∷ m) h = elim (Bool-cases (i == k)) [
    | inl e ↦ absurd (ground arith)
    | inr e ↦ (λ f. ground arith, find-none-AllKeys k m (ground arith))
  ]

  pub erase-assign :
      (k : ℕ) (v : V) (m : List (ℕ × V)) → AllKeys (λ j. j ≢ k) m → erase k (assign k v m) ≡ m
  unfolding erase assign
  erase-assign k v [] h = ground arith
  erase-assign k v ((i, u) ∷ m) h = ground (arith, erase-assign k v m h.1)

  AllKeys-ne :
      (k j : ℕ) (m : List (ℕ × V)) → k ≡ j → AllKeys (λ i. k ≢ i) m → AllKeys (λ i. i ≢ j) m
  AllKeys-ne k j [] e h = tt
  AllKeys-ne k j ((i, u) ∷ m) e h = (omega arith, AllKeys-ne k j m e h.1)

  pub find-erase_self : (k : ℕ) (m : List (ℕ × V)) → Distinct m → find k (erase k m) ≡ none
  unfolding find erase
  find-erase_self k [] d = refl
  find-erase_self k ((i, u) ∷ m) d = elim (Bool-cases (i == k)) [
    | inl e ↦ rw e (find_absent k m (AllKeys-ne i k m ((==_iff i k).0 e) d.0))
    | inr e ↦ rw (e, e) (find-erase_self k m d.1)
  ]

  pub AllKeys-erase {ℓ} :
      (P : ℕ → Type ℓ) (k : ℕ) (m : List (ℕ × V)) → AllKeys P m → AllKeys P (erase k m)
  unfolding erase
  AllKeys-erase P k [] h = h
  AllKeys-erase P k ((i, u) ∷ m) h = elim (Bool-cases (i == k)) [
    | inl e ↦ rw e h.1
    | inr e ↦ rw e (h.0, AllKeys-erase P k m h.1)
  ]

  pub AllKeys-assign {ℓ} :
      (P : ℕ → Type ℓ) (k : ℕ) (v : V) (m : List (ℕ × V))
      → P k
      → AllKeys P m
      → AllKeys P (assign k v m)
  unfolding assign
  AllKeys-assign P k v [] p h = (p, h)
  AllKeys-assign P k v ((i, u) ∷ m) p h = elim (Bool-cases (i == k)) [
    | inl e ↦ rw e (p, h.1)
    | inr e ↦ rw e (h.0, AllKeys-assign P k v m p h.1)
  ]

  pub Distinct-erase : (k : ℕ) (m : List (ℕ × V)) → Distinct m → Distinct (erase k m)
  unfolding erase
  Distinct-erase k [] d = d
  Distinct-erase k ((i, u) ∷ m) d = elim (Bool-cases (i == k)) [
    | inl e ↦ rw e d.1
    | inr e ↦ rw e (AllKeys-erase (λ j. i ≢ j) k m d.0, Distinct-erase k m d.1)
  ]

  pub Distinct-assign :
      (k : ℕ) (v : V) (m : List (ℕ × V))
      → AllKeys (λ j. j ≢ k) m
      → Distinct m
      → Distinct (assign k v m)
  unfolding assign
  Distinct-assign k v [] h d = (tt, tt)
  Distinct-assign k v ((i, u) ∷ m) h d = elim (Bool-cases (i == k)) [
    | inl e ↦ absurd (h.0 ((==_iff i k).0 e))
    | inr e ↦ rw e (AllKeys-assign (λ j. i ≢ j) k v m h.0 d.0, Distinct-assign k v m h.1 d.1)
  ]

  pub find-erase_ne : (k j : ℕ) (m : List (ℕ × V)) → k ≢ j → find j (erase k m) ≡ find j m
  unfolding find erase
  find-erase_ne k j [] h = refl
  find-erase_ne k j ((i, u) ∷ m) h = ground (arith, find-erase_ne k j m h)

-- ===== src/Prelude/Map.antt =====
-- std::map as an association list: operator[], find, erase.
use old_car_can_driver.Prelude.{
  ◌≡◌, refl, List, [], ◌∷◌, Option, none, some, arith, if◌then◌else◌, Eq, if_cases, All,
}

module _ {ℓ κ} {K : Type ℓ} {V : Type κ} ⦃e : Eq K⦄ where
  unfoldable pub find : K → List (K × V) → Option V
  find k [] = none
  find k ((j, v) ∷ m) = if e.beq j k then some v else find k m

  unfoldable pub insert : K → V → List (K × V) → List (K × V)
  insert k v [] = (k, v) ∷ []
  insert k v ((j, w) ∷ m) = if e.beq j k then (k, v) ∷ m else (j, w) ∷ insert k v m

  unfoldable pub erase : K → List (K × V) → List (K × V)
  erase k [] = []
  erase k ((j, w) ∷ m) = let rest = erase k m in if e.beq j k then rest else (j, w) ∷ rest

  pub find-insert :
      (k j : K) (v : V) (m : List (K × V))
      → find j (insert k v m) ≡ (if e.beq k j then some v else find j m)
  unfolding find insert
  find-insert k j v [] = refl
  find-insert k j v ((i, w) ∷ m) =
      ground (arith, e.beq_iff k j, e.beq_iff i k, e.beq_iff i j, find-insert k j v m)

  pub find-erase :
      (k j : K) (m : List (K × V)) → find j (erase k m) ≡ (if e.beq k j then none else find j m)
  unfolding find erase
  find-erase k j [] = ground arith
  find-erase k j ((i, w) ∷ m) =
      ground (arith, e.beq_iff k j, e.beq_iff i k, e.beq_iff i j, find-erase k j m)

  pub find-insert_self : (k : K) (v : V) (m : List (K × V)) → find k (insert k v m) ≡ some v
  find-insert_self k v m = ground (arith, find-insert k k v m, (e.beq_iff k k).1 refl)

abbrev pub or_new {ℓ} : {A : Type ℓ} → Option A → A → A
or_new none d = d
or_new (some a) d = a

-- A property of the values of a map.
module _ {ℓ κ} {K : Type ℓ} {V : Type κ} ⦃e : Eq K⦄ (P : V → Type 0) where
  abbrev pub AllValues : List (K × V) → Type 0
  AllValues = All (λ kv. P kv.1)

  pub AllValues-insert :
      (k : K) (v : V) (m : List (K × V)) → AllValues m → P v → AllValues (insert k v m)
  unfolding insert
  AllValues-insert k v [] h p = (p, tt)
  AllValues-insert k v ((j, w) ∷ m) h p =
      if_cases AllValues (e.beq j k) ((k, v) ∷ m) ((j, w) ∷ insert k v m) (λ _. (p, h.1))
        (λ _. (h.0, AllValues-insert k v m h.1 p))

  pub AllValues-find :
      (k : K) (m : List (K × V)) (d : V) → AllValues m → P d → P (or_new (find k m) d)
  unfolding find
  AllValues-find k [] d h p = p
  AllValues-find k ((j, w) ∷ m) d h p =
      if_cases (λ o. P (or_new o d)) (e.beq j k) (some w) (find k m) (λ _. h.0)
        (λ _. AllValues-find k m d h.1 p)

-- ===== src/Containers/Map.antt =====
-- Unordered_map of threadsafe.h, as the list of its entries.
use dag_blockchain.Prelude.{
  Eq, List, Option, [], arith, if◌then◌else◌, length, nat_eq, none, refl, some, ℕ, ◌+◌, ◌==◌, ◌∷◌,
  ◌≡◌,
}

abbrev pub Map {ℓ κ} : Type ℓ → Type κ → Type (ℓ ⊔ κ)
Map K V = List (K × V)

module _ {ℓ κ} {K : Type ℓ} {V : Type κ} ⦃e : Eq K⦄ where
  -- find(key, value): what is copied to `value`, or `none` for `false`.
  unfoldable pub find : K → Map K V → Option V
  find key [] = none
  find key ((k, v) ∷ m) = if k == key then some v else find key m

  -- insert: map[key] = value.
  unfoldable pub insert : K → V → Map K V → Map K V
  insert key value [] = (key, value) ∷ []
  insert key value ((k, v) ∷ m) = if k == key then (k, value) ∷ m else (k, v) ∷ insert key value m

  unfoldable pub size : Map K V → ℕ
  size m = length m

  -- After an insertion, a lookup finds the new value at its key, and at every other key what it
  -- found before.
  pub find-insert :
      (key j : K) (value : V) (m : Map K V)
      → find j (insert key value m) ≡ (if key == j then some value else find j m)
  unfolding find insert
  find-insert key j value [] = refl
  find-insert key j value ((k, v) ∷ m) =
      ground (arith, e.agrees k key, e.agrees k j, e.agrees key j, find-insert key j value m)

  -- One more entry for a new key, and none for an old one.
  pub size-insert :
      (key : K) (value : V) (m : Map K V)
      → size (insert key value m) ≡ elim (find key m) [ none ↦ size m + 1 | some v ↦ size m ]
  unfolding find insert size
  size-insert key value [] = omega arith
  size-insert key value ((k, v) ∷ m) = ground (arith, size-insert key value m)

-- ===== src/Containers/Set.antt =====
-- Unordered_set of threadsafe.h, and std::unordered_set, as the list of the elements in the order in
-- which the table goes through them. That order is not specified.
use dag_blockchain.Prelude.{
  Bool, Eq, List, [], ap, arith, false, if◌then◌else◌, length, not, true, ◌&&◌, ◌+◌, ◌==◌, ◌||◌,
  ◌∷◌, ◌≡◌,
}

module _ {ℓ} {A : Type ℓ} ⦃e : Eq A⦄ where
  -- find(element) != end()
  unfoldable pub contains : A → List A → Bool
  contains a [] = false
  contains a (x ∷ xs) = x == a || contains a xs

  unfoldable pub emplace : A → List A → List A
  unfolding contains
  emplace a xs = if contains a xs then xs else a ∷ xs

  -- erase(key)
  unfoldable pub erase : A → List A → List A
  erase a [] = []
  erase a (x ∷ xs) = if x == a then xs else x ∷ erase a xs

  -- No element twice.
  abbrev pub IsDistinct : List A → Type 0
  IsDistinct [] = Unit {0}
  IsDistinct (x ∷ xs) = (contains x xs ≡ false) × IsDistinct xs

  pub contains-emplace :
      (a b : A) (xs : List A) → contains b (emplace a xs) ≡ (a == b || contains b xs)
  unfolding contains emplace
  contains-emplace a b xs = ground (arith, e.agrees a b, ap (λ x. contains x xs))

  -- Two tests with equal arguments agree.
  contains-eq : (a b : A) (xs : List A) → (a == b) ≡ true → contains a xs ≡ contains b xs
  contains-eq a b xs h = ap (λ x. contains x xs) ((e.agrees a b).0 h)

  pub contains-erase :
      (a b : A) (xs : List A)
      → IsDistinct xs
      → contains b (erase a xs) ≡ (not (a == b) && contains b xs)
  unfolding contains erase
  contains-erase a b [] d = ground (arith, e.agrees a b)
  contains-erase a b (x ∷ xs) d = ground (
    arith,
    e.agrees x a,
    e.agrees x b,
    e.agrees a b,
    contains-erase a b xs d.1,
    contains-eq x b xs,
    contains-eq a b xs,
  )

  pub erase-IsDistinct : (a : A) (xs : List A) → IsDistinct xs → IsDistinct (erase a xs)
  unfolding erase
  erase-IsDistinct a [] d = tt
  erase-IsDistinct a (x ∷ xs) d =
      ground (arith, contains-erase a x xs d.1, erase-IsDistinct a xs d.1)

  pub emplace-IsDistinct : (a : A) (xs : List A) → IsDistinct xs → IsDistinct (emplace a xs)
  unfolding emplace
  emplace-IsDistinct a xs d = ground arith

  pub length-emplace :
      (a : A) (xs : List A)
      → length (emplace a xs) ≡ (if contains a xs then length xs else length xs + 1)
  unfolding emplace
  length-emplace a xs = ground arith

-- ===== src/Peer/Scan/Growth.antt =====
-- The sets of the DAG before and after the scan of a vertex.
use dag_blockchain.Prelude.{
  >>=-eq-some, Bool, Bool-cases, Bytes, List, Option, ap, arith, beq_refl, bytes_beq_iff, bytes_eq,
  false, get_elem?, get_elem?-lt, get_elem?-set_ne, get_elem?-set_self, if◌then◌else◌, inl, inr,
  leb, length, length-set, le→leb, nat_beq, nat_beq_iff, none, refl, set, some, subst, suc, sym,
  true, zero, ℕ, ◌-◌, ◌||◌, ◌∙◌, ◌≡◌,
}
use dag_blockchain.Prelude.Int.{negsuc, pos, ℤ}
use dag_blockchain.Peer.Scan.{add_hash}
use dag_blockchain.Containers.Set.{contains, emplace, contains-emplace}
use dag_blockchain.Peer.History.{round_set}

-- Whether a hash is in a set that may not be there.
abbrev pub member : Bytes → Option (List Bytes) → Bool
member h none = false
member h (some s) = contains h s

-- Whether a hash is in dag_image[v_round - back].
abbrev pub in_dag : List (List Bytes) → ℤ → ℕ → Bytes → Bool
in_dag dag v_round back h = member h (round_set dag v_round back)

abbrev pub Grows : List (List Bytes) → List (List Bytes) → Type 0
Grows dag dag' =
    (v_round : ℤ) (back : ℕ) (h : Bytes)
    → in_dag dag v_round back h ≡ true
    → in_dag dag' v_round back h ≡ true

abbrev at_index : List (List Bytes) → ℕ → Bytes → Bool
at_index dag n h = member h (get_elem? dag n)

at_index-set :
    (dag : List (List Bytes)) (n i : ℕ) (s : List Bytes) (h g : Bytes)
    → get_elem? dag n ≡ some s
    → at_index dag i g ≡ true
    → at_index (set dag n (emplace h s)) i g ≡ true
at_index-set dag n i s h g e m = elim (Bool-cases (nat_beq n i)) [
  | inl same ↦
      let ni : n ≡ i = (nat_beq_iff n i).0 same in
      let e' : get_elem? dag i ≡ some s = subst (λ j. get_elem? dag j ≡ some s) ni e in
      let f : get_elem? (set dag n (emplace h s)) i ≡ some (emplace h s) =
        subst (λ j. get_elem? (set dag n (emplace h s)) j ≡ some (emplace h s)) ni
          (get_elem?-set_self dag n (emplace h s) (get_elem?-lt dag n e)) in
      ground (arith, contains-emplace h g s)
  | inr other ↦
      let f : get_elem? (set dag n (emplace h s)) i ≡ get_elem? dag i =
        get_elem?-set_ne dag n i (emplace h s) (λ q. cc ((nat_beq_iff n i).1 q)) in
      ground arith
]

in_dag-inside :
    (dag : List (List Bytes)) (m back : ℕ) (g : Bytes)
    → leb back m ≡ true
    → in_dag dag (pos m) back g ≡ at_index dag (m - back) g
unfolding round_set
in_dag-inside dag m back g h = ap (λ b. member g (if b then get_elem? dag (m - back) else none)) h

in_dag-outside :
    (dag : List (List Bytes)) (m back : ℕ) (g : Bytes)
    → leb back m ≡ false
    → in_dag dag (pos m) back g ≡ false
unfolding round_set
in_dag-outside dag m back g h = ap (λ b. member g (if b then get_elem? dag (m - back) else none)) h

in_dag-set :
    (dag : List (List Bytes)) (n : ℕ) (s : List Bytes) (h : Bytes)
    → get_elem? dag n ≡ some s
    → Grows dag (set dag n (emplace h s))
unfolding round_set
in_dag-set dag n s h e (pos m) back g m_in = elim (Bool-cases (leb back m)) [
  | inl inside ↦
      in_dag-inside (set dag n (emplace h s)) m back g inside
      ∙ at_index-set dag n (m - back) s h g e (sym (in_dag-inside dag m back g inside) ∙ m_in)
  | inr outside ↦ absurd (cc (in_dag-outside dag m back g outside, m_in))
]
in_dag-set dag n s h e (negsuc m) back g m_in = absurd (cc m_in)

hash_added :
    (dag : List (List Bytes)) (n : ℕ) (s : List Bytes) (h : Bytes)
    → get_elem? dag n ≡ some s
    → in_dag (set dag n (emplace h s)) (pos (suc n)) 1 h ≡ true
hash_added dag n s h found =
    let back : suc n - 1 ≡ n = omega arith in
    in_dag-inside (set dag n (emplace h s)) (suc n) 1 h (le→leb 1 (suc n) (omega arith))
    ∙ ap (λ j. at_index (set dag n (emplace h s)) j h) back
    ∙ ap (member h) (get_elem?-set_self dag n (emplace h s) (get_elem?-lt dag n found))
    ∙ contains-emplace h h s
    ∙ ap (λ b. b || contains h s) (beq_refl h)

-- What add_hash does where it is defined: the set of the round of the vertex gets its hash.
pub add_hash-Grows :
    (v_round : ℤ) (h : Bytes) (dag dag' : List (List Bytes))
    → add_hash v_round h dag ≡ some dag'
    → Grows dag dag' × (in_dag dag' v_round 1 h ≡ true) × (length dag' ≡ length dag)
unfolding add_hash
add_hash-Grows (pos zero) h dag dag' e = absurd (cc e)
add_hash-Grows (negsuc n) h dag dag' e = absurd (cc e)
add_hash-Grows (pos (suc n)) h dag dag' e =
    let (s, found, done) = >>=-eq-some (get_elem? dag n) (λ s. some (set dag n (emplace h s))) e in
    let same : set dag n (emplace h s) ≡ dag' = cc done in
    rw (← same)
      (in_dag-set dag n s h found, hash_added dag n s h found, length-set dag n (emplace h s))

at_index-new :
    (dag : List (List Bytes)) (n i : ℕ) (s : List Bytes) (h g : Bytes)
    → get_elem? dag n ≡ some s
    → at_index (set dag n (emplace h s)) i g ≡ true
    → at_index dag i g ≡ false
    → (n ≡ i) × (h ≡ g)
at_index-new dag n i s h g e m a = elim (Bool-cases (nat_beq n i)) [
  | inl same ↦
      let ni : n ≡ i = (nat_beq_iff n i).0 same in
      let e' : get_elem? dag i ≡ some s = subst (λ j. get_elem? dag j ≡ some s) ni e in
      let f : get_elem? (set dag n (emplace h s)) i ≡ some (emplace h s) =
        subst (λ j. get_elem? (set dag n (emplace h s)) j ≡ some (emplace h s)) ni
          (get_elem?-set_self dag n (emplace h s) (get_elem?-lt dag n e)) in
      let inside = sym (contains-emplace h g s) ∙ (sym (ap (member g) f) ∙ m) in
      let outside : contains g s ≡ false = sym (ap (member g) e') ∙ a in
      (ni, (bytes_beq_iff h g).0 (ground (arith, inside, outside)))
  | inr other ↦
      let f : get_elem? (set dag n (emplace h s)) i ≡ get_elem? dag i =
        get_elem?-set_ne dag n i (emplace h s) (λ q. cc ((nat_beq_iff n i).1 q)) in
      absurd (cc (sym m ∙ ap (member g) f, a))
]

-- A hash that add_hash has put into the DAG is the one that it was called for.
pub add_hash-new :
    (v_round r : ℤ) (h g : Bytes) (dag dag' : List (List Bytes))
    → add_hash v_round h dag ≡ some dag'
    → in_dag dag' r 1 g ≡ true
    → in_dag dag r 1 g ≡ false
    → (v_round ≡ r) × (h ≡ g)
unfolding add_hash round_set
add_hash-new (pos zero) r h g dag dag' e m a = absurd (cc e)
add_hash-new (negsuc n) r h g dag dag' e m a = absurd (cc e)
add_hash-new (pos (suc n)) (negsuc i) h g dag dag' e m a = absurd (cc m)
add_hash-new (pos (suc n)) (pos zero) h g dag dag' e m a =
    absurd (cc (sym m ∙ in_dag-outside dag' 0 1 g refl))
add_hash-new (pos (suc n)) (pos (suc i)) h g dag dag' e m a =
    let (s, found, done) = >>=-eq-some (get_elem? dag n) (λ s. some (set dag n (emplace h s))) e in
    let same : set dag n (emplace h s) ≡ dag' = cc done in
    let inside : leb 1 (suc i) ≡ true = le→leb 1 (suc i) (omega arith) in
    let back : suc i - 1 ≡ i = omega arith in
    let m' : at_index (set dag n (emplace h s)) i g ≡ true =
      ap (λ d. at_index d i g) same
      ∙ sym (ap (λ j. at_index dag' j g) back)
      ∙ sym (in_dag-inside dag' (suc i) 1 g inside)
      ∙ m in
    let a' : at_index dag i g ≡ false =
      sym (ap (λ j. at_index dag j g) back) ∙ sym (in_dag-inside dag (suc i) 1 g inside) ∙ a in
    let (ni, hg) = at_index-new dag n i s h g found m' a' in (ap (λ k. pos (suc k)) ni, hg)

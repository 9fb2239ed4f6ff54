-- ===== src/Main/Statuses/Table.antt =====
-- The table of the exit statuses holds each child once, in order of the process ids.
use dag_blockchain.Prelude.{
  All, Bool-cases, List, [], ap, arith, false, if◌then◌else◌, inl, inr, ltb, nat_eq, refl, subst, ℕ,
  ◌++◌, ◌<◌, ◌==◌, ◌||◌, ◌∙◌, ◌∷◌, ◌≡◌,
}
use dag_blockchain.Prelude.Int.{ℤ}
use mathlib.Core.List.{Perm, perm_middle}
use mathlib.Core.List.Perm
use dag_blockchain.Containers.Set.{contains, IsDistinct}
use dag_blockchain.Main.Statuses.{emplace_status, statuses, pids}

contains-emplace_status :
    (x pid : ℕ) (status : ℤ) (table : List (ℕ × ℤ))
    → contains x (pids (emplace_status pid status table)) ≡ (pid == x || contains x (pids table))
unfolding emplace_status contains
contains-emplace_status x pid status [] = ground arith
contains-emplace_status x pid status (entry ∷ table) =
    ground (arith, contains-emplace_status x pid status table)

-- The children behind one that is put in are still not in the table.
All-fresh :
    (e : ℕ × ℤ) (ended table : List (ℕ × ℤ))
    → contains e.0 (pids ended) ≡ false
    → All (λ x. contains x.0 (pids table) ≡ false) ended
    → All (λ x. contains x.0 (pids (emplace_status e.0 e.1 table)) ≡ false) ended
unfolding contains
All-fresh e [] table h fresh = tt
All-fresh e (x ∷ ended) table h fresh = (
  ground (
    arith,
    h,
    fresh.0,
    nat_eq.agrees e.0 x.0,
    nat_eq.agrees x.0 e.0,
    contains-emplace_status x.0 e.0 e.1 table,
  ),
  All-fresh e ended table (ground (arith, h)) fresh.1,
)

-- How a child has ended. `stopped`: neither of the macros holds of its status.
pub data Way : Type 0 where
  exits : Way
  killed : Way
  stopped : Way

pub record Ended : Type 0 where
  pub pid : ℕ
  pub status : ℤ
  pub way : Way

abbrev pub entries : List Ended → List (ℕ × ℤ)
entries [] = []
entries (e ∷ es) = (e.pid, e.status) ∷ entries es

-- In order of the process ids.
abbrev pub IsAscending : List Ended → Type 0
IsAscending [] = Unit
IsAscending (e ∷ es) = All (λ x. e.pid < x.pid) es × IsAscending es

abbrev place : Ended → List Ended → List Ended
place e [] = e ∷ []
place e (x ∷ xs) = let rest = place e xs in if ltb e.pid x.pid then e ∷ x ∷ xs else x ∷ rest

entries-place :
    (e : Ended) (table : List Ended)
    → contains e.pid (pids (entries table)) ≡ false
    → emplace_status e.pid e.status (entries table) ≡ entries (place e table)
unfolding emplace_status contains
entries-place e [] h = refl
entries-place e (x ∷ xs) h =
    let ih = entries-place e xs (ground (arith, h)) in
    let apart : (e.pid == x.pid) ≡ false = ground (arith, h) in
    elim (Bool-cases (ltb e.pid x.pid)) [
      | inl before ↦ rw before refl
      | inr after ↦ rw (after, apart) (ap (λ t. (x.pid, x.status) ∷ t) ih)
    ]

place-Perm : (e : Ended) (table : List Ended) → Perm (place e table) (e ∷ table)
place-Perm e [] = Perm.refl _
place-Perm e (x ∷ xs) = elim (Bool-cases (ltb e.pid x.pid)) [
  | inl before ↦ rw before (Perm.refl _)
  | inr after ↦ rw after (Perm.trans (Perm.cons x (place-Perm e xs)) (Perm.swap e x xs))
]

All-place :
    (P : Ended → Type 0) (e : Ended) (table : List Ended)
    → P e
    → All P table
    → All P (place e table)
All-place P e [] p all = (p, tt)
All-place P e (x ∷ xs) p all = elim (Bool-cases (ltb e.pid x.pid)) [
  | inl before ↦ rw before (p, all)
  | inr after ↦ rw after (all.0, All-place P e xs p all.1)
]

All-before :
    (m n : ℕ) (table : List Ended) → m < n → All (λ x. n < x.pid) table → All (λ x. m < x.pid) table
All-before m n [] h all = tt
All-before m n (x ∷ xs) h all = (omega arith, All-before m n xs h all.1)

place-IsAscending :
    (e : Ended) (table : List Ended)
    → contains e.pid (pids (entries table)) ≡ false
    → IsAscending table
    → IsAscending (place e table)
unfolding contains
place-IsAscending e [] h up = (tt, tt)
place-IsAscending e (x ∷ xs) h up = elim (Bool-cases (ltb e.pid x.pid)) [
  | inl before ↦
      let less : e.pid < x.pid = ground arith in
      rw before ((less, All-before e.pid x.pid xs less up.0), up)
  | inr after ↦
      let ih = place-IsAscending e xs (ground (arith, h)) up.1 in
      let apart : (e.pid == x.pid) ≡ false = ground (arith, h) in
      let less : x.pid < e.pid = ground arith in
      rw after (All-place (λ y. x.pid < y.pid) e xs less up.0, ih)
]

-- The table after the children in their order.
abbrev pub arrange : List Ended → List Ended → List Ended
arrange [] table = table
arrange (e ∷ ended) table = arrange ended (place e table)

abbrev pub AllFresh : List Ended → List Ended → Type 0
AllFresh ended table = All (λ x. contains x.0 (pids (entries table)) ≡ false) (entries ended)

pub arrange_lem :
    (ended table : List Ended)
    → IsDistinct (pids (entries ended))
    → AllFresh ended table
    → IsAscending table
    → (statuses (entries ended) (entries table) ≡ entries (arrange ended table))
      × Perm (arrange ended table) (ended ++ table)
      × IsAscending (arrange ended table)
unfolding statuses
arrange_lem [] table distinct fresh up = (refl, Perm.refl _, up)
arrange_lem (e ∷ ended) table distinct fresh up =
    let same = entries-place e table fresh.0 in
    let fresh' =
      subst (λ t. All (λ x. contains x.0 (pids t) ≡ false) (entries ended)) same
        (All-fresh (e.pid, e.status) (entries ended) (entries table) distinct.0 fresh.1) in
    let (run, perm, sorted) =
      arrange_lem ended (place e table) distinct.1 fresh' (place-IsAscending e table fresh.0 up) in
    (
      ap (statuses (entries ended)) same ∙ run,
      Perm.trans perm
          (Perm.trans (Perm.append_left ended (place-Perm e table)) (perm_middle ended table)),
      sorted,
    )

pub All-arrange :
    (P : Ended → Type 0) (ended table : List Ended)
    → All P ended
    → All P table
    → All P (arrange ended table)
All-arrange P [] table all more = more
All-arrange P (e ∷ ended) table all more =
    All-arrange P ended (place e table) all.1 (All-place P e table all.0 more)

pub All-none : (ended : List Ended) → AllFresh ended []
unfolding contains
All-none [] = tt
All-none (e ∷ ended) = (refl, All-none ended)

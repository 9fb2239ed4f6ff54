-- ===== src/Network/Server/Hashes.antt =====
-- The hashes in the map of the server, and lists of hashes that differ.
use dag_blockchain.Prelude.{
  All, Bool, Bytes, List, [], ap, arith, beq_refl, bytes_eq, false, nat_eq, none, refl, some, true,
  ◌++◌, ◌==◌, ◌||◌, ◌∷◌, ◌≡◌,
}
use dag_blockchain.Vertex.{Vertex}
use dag_blockchain.Containers.Map
use dag_blockchain.Containers.Map.{Map}
use dag_blockchain.Containers.Set.{contains, IsDistinct}

-- The test of `find` with no place for the value.
abbrev pub is_found : Bytes → Map Bytes Vertex → Bool
is_found h m = elim (Map.find h m) [ none ↦ false | some v ↦ true ]

found-insert :
    (h k : Bytes) (v : Vertex) (m : Map Bytes Vertex)
    → is_found h m ≡ true
    → is_found h (Map.insert k v m) ≡ true
found-insert h k v m found = ground (arith, Map.find-insert k h v m)

pub found-inserted :
    (k : Bytes) (v : Vertex) (m : Map Bytes Vertex) → is_found k (Map.insert k v m) ≡ true
found-inserted k v m = ground (arith, Map.find-insert k k v m, beq_refl k)

unfoldable pub AllFound : Map Bytes Vertex → List Bytes → Type 0
AllFound m hashes = All (λ h. is_found h m ≡ true) hashes

pub AllFound-insert :
    (k : Bytes) (v : Vertex) (m : Map Bytes Vertex) (hashes : List Bytes)
    → AllFound m hashes
    → AllFound (Map.insert k v m) hashes
unfolding AllFound
AllFound-insert k v m [] all = tt
AllFound-insert k v m (h ∷ hashes) all =
    (found-insert h k v m all.0, AllFound-insert k v m hashes all.1)

-- A hash that is not found is none of those that are.
pub fresh :
    (k : Bytes) (m : Map Bytes Vertex) (hashes : List Bytes)
    → AllFound m hashes
    → is_found k m ≡ false
    → contains k hashes ≡ false
unfolding AllFound contains
fresh k m [] all unknown = refl
fresh k m (h ∷ hashes) all unknown =
    ground (arith, bytes_eq.agrees h k, ap (λ x. is_found x m), fresh k m hashes all.1 unknown)

pub AllFound-middle :
    (k : Bytes) (m : Map Bytes Vertex) (xs ys : List Bytes)
    → is_found k m ≡ true
    → AllFound m (xs ++ ys)
    → AllFound m (xs ++ k ∷ ys)
unfolding AllFound
AllFound-middle k m [] ys found all = (found, all)
AllFound-middle k m (x ∷ xs) ys found all = (all.0, AllFound-middle k m xs ys found all.1)

contains-middle :
    (h k : Bytes) (xs ys : List Bytes)
    → contains h (xs ++ k ∷ ys) ≡ (k == h || contains h (xs ++ ys))
unfolding contains
contains-middle h k [] ys = refl
contains-middle h k (x ∷ xs) ys = ground (arith, contains-middle h k xs ys)

pub IsDistinct-middle :
    (k : Bytes) (xs ys : List Bytes)
    → contains k (xs ++ ys) ≡ false
    → IsDistinct (xs ++ ys)
    → IsDistinct (xs ++ k ∷ ys)
unfolding contains
IsDistinct-middle k [] ys new all = (new, all)
IsDistinct-middle k (x ∷ xs) ys new all = (
  ground (arith, contains-middle x k xs ys, bytes_eq.agrees k x, bytes_eq.agrees x k),
  IsDistinct-middle k xs ys (ground arith) all.1,
)

pub All-middle :
    (P : Vertex → Type 0) (v : Vertex) (xs ys : List Vertex)
    → P v
    → All P (xs ++ ys)
    → All P (xs ++ v ∷ ys)
All-middle P v [] ys p all = (p, all)
All-middle P v (x ∷ xs) ys p all = (all.0, All-middle P v xs ys p all.1)

-- ===== src/Vertex.antt =====
-- vertex.h and vertex.cpp: the vertex, its constructors and accessors, its name and its wire form.
-- SHA-256 and the hexadecimal encoder come from Crypto++, and are a parameter.
pub mod Serialize
pub mod Deserialize
pub mod Wire
pub mod Key
use dag_blockchain.Prelude.{
  Bool, Bytes, List, [], false, if◌then◌else◌, length, nat_eq, true, ℕ, ◌*◌, ◌++◌, ◌==◌, ◌∷◌, ◌≡◌,
}
use dag_blockchain.Prelude.Int.{pos, ℤ}
use dag_blockchain.Bytes.Decimal.{to_string_ℤ, to_string}

pub record Vertex : Type 0 where
  pub round : ℤ
  pub peer_id : ℕ
  pub payload : Bytes
  pub references : List Bytes

-- CryptoPP::SHA256 and CryptoPP::HexEncoder, with the sizes that their manual states.
pub record Crypto : Type 0 where
  pub sha256 : Bytes → Bytes
  pub hex_encode : Bytes → Bytes
  pub length-sha256 : (input : Bytes) → length (sha256 input) ≡ 32
  pub length-hex_encode : (input : Bytes) → length (hex_encode input) ≡ 2 * length input

-- hash_256: the digest goes through the encoder, whose whole output is taken.
unfoldable pub hash_256 : Crypto → Bytes → Bytes
hash_256 crypto input = crypto.hex_encode (crypto.sha256 input)

-- Vertex(int, uint64_t, std::string)
unfoldable pub new_vertex : ℤ → ℕ → Bytes → Vertex
new_vertex round peer_id payload = record {
  round = round;
  peer_id = peer_id;
  payload = payload;
  references = [];
}

-- The state in which a move leaves its source.
abbrev pub moved_out : Vertex
moved_out = record { round = pos 0; peer_id = 0; payload = []; references = [] }

-- Vertex(Vertex &&): the new vertex, and the source as the move leaves it.
unfoldable pub move_construct : Vertex → Vertex × Vertex
move_construct source = (
  record {
    round = source.round;
    peer_id = source.peer_id;
    payload = source.payload;
    references = source.references;
  },
  moved_out,
)

-- operator=(Vertex &&): `same` says that both sides are one object.
unfoldable pub move_assign : Bool → Vertex → Vertex → Vertex × Vertex
move_assign same target source = if same then (target, source) else (
  record {
    round = source.round;
    peer_id = source.peer_id;
    payload = source.payload;
    references = source.references;
  },
  moved_out,
)

-- add_ref: the references of a set, in the set's order, go behind those that are there.
unfoldable pub add_ref : List Bytes → ℕ → Vertex → Vertex × Bool
add_ref refs peer_id v =
    if peer_id == v.peer_id
    then (record v { references = v.references ++ refs }, true)
    else (v, false)

-- What `hash` and the requests for a vertex feed to SHA-256.
unfoldable pub key : ℤ → ℕ → Bytes
key round peer_id = to_string_ℤ round ++ to_string peer_id

unfoldable pub hash : Crypto → Vertex → Bytes
hash crypto v = hash_256 crypto (key v.round v.peer_id)

-- print
unfoldable pub print : Vertex → Bytes
print v = to_string_ℤ v.round ++ ((32 ∷ b'-' ∷ 32 ∷ []) ++ to_string v.peer_id)

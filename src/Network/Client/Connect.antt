-- ===== src/Network/Client/Connect.antt =====
-- connect_to of networking.cpp: the sockets to the servers of the other peers.
use dag_blockchain.Prelude.{Bool, List, Option, [], false, none, some, true, ℕ, ◌∷◌}
use dag_blockchain.Network.Outcome.{Outcome, returns, exits, undefined, ◌>>=◌}
use dag_blockchain.Network.Client.{Client, add_connection}

-- What the system answers for one server: the descriptor of the new socket, or `none` for an error;
-- whether the connection is made; and the id in the file that is named after the port, or `none` if
-- the file cannot be opened.
pub record Contact : Type 0 where
  pub socket : Option ℕ
  pub connects : Bool
  pub file_id : Option ℕ

-- The call of socket() ends the process if it fails.
unfoldable pub c_socket : Contact → Outcome ℕ
c_socket contact = elim contact.socket [ none ↦ exits | some fd ↦ returns fd ]

-- So does connect(); the sockets so far are closed before.
unfoldable pub c_connect : Contact → Client → Outcome Client
c_connect contact c = elim contact.connects [ true ↦ returns c | false ↦ exits ]

-- The variable `value` after the reading of the file: it keeps what it had if there is no file.
unfoldable pub read_id : Contact → Option ℕ → Option ℕ
read_id contact value = elim contact.file_id [ none ↦ value | some id ↦ some id ]

-- The loop over the servers. `value` is `none` before it is set, and then its use is undefined.
unfoldable pub connect_loop : List Contact → Option ℕ → Client → Outcome Client
unfolding c_socket c_connect read_id
connect_loop [] value c = returns c
connect_loop (contact ∷ contacts) value c = c_socket contact >>= λ new_socket.
    c_connect contact c >>= λ connected. elim (read_id contact value) [
      | none ↦ undefined
      | some id ↦ connect_loop contacts (some id) (add_connection id new_socket connected)
    ]

unfoldable pub connect_to : List Contact → Client → Outcome Client
unfolding connect_loop
connect_to servers c = connect_loop servers none c

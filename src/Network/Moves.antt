-- ===== src/Network/Moves.antt =====
-- The moves of Server and Client of networking.cpp, with the words that they copy, the descriptors
-- and the address, left out. Each has the new object and what is left of the source.
use dag_blockchain.Prelude.{Bool, [], false}
use dag_blockchain.Network.Server.{Server, new_server}
use dag_blockchain.Network.Client.{Client}

-- Server(Server &&): `is_up` is not initialised, so its value is an argument. The map stays behind.
unfoldable pub construct_server : Bool → Server → Server × Server
construct_server is_up source = (
  record new_server { is_up = is_up; thread_ready = source.thread_ready },
  record source { thread_ready = false },
)

-- operator=(Server &&), for two objects.
unfoldable pub assign_server : Server → Server → Server × Server
assign_server target source =
    (record target { thread_ready = source.thread_ready }, record source { thread_ready = false })

-- Client(Client &&)
unfoldable pub construct_client : Client → Client × Client
construct_client source = (
  record { peers = []; c_sockets = source.c_sockets; socket_map = [] },
  record source { c_sockets = [] },
)

-- operator=(Client &&), for two objects.
unfoldable pub assign_client : Client → Client → Client × Client
assign_client target source =
    (record target { c_sockets = source.c_sockets }, record source { c_sockets = [] })

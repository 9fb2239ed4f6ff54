-- ===== src/Lib.antt =====
-- A verification library for the DAG blockchain: validators that exchange vertices round by round and
-- keep an image of the graph that the vertices make.
--
-- The parts of the program, and the files that model them:
--
-- * vertex.h and vertex.cpp, the vertex: Vertex has the class, its constructors, `add_ref`, `hash` and
--   `print`; Vertex/Serialize and Vertex/Deserialize have `serialize_data` and `deserialize_data` on a
--   buffer with bounds; Vertex/Wire has the wire form as a list of bytes, apart from the code.
-- * DataStructs/threadsafe.h, the containers: Containers/Map, Containers/Set and Containers/Threadpool.
--   Containers/Lock has the mutex of the map and the set, one step of a thread at a time.
--   The pool is a machine whose events are an `enqueue`, a step of a worker thread and the destructor.
-- * networking.h and networking.cpp, messages, server and client: Network/Message has
--   `attach_length_to_msg`, `examine_msg`, `process_request` and `dynamic_copy`; Network/Send has
--   `c_sendn`, Network/Receive has `c_recvn`; Network/Calls has the calls of epoll and accept;
--   Network/Server has the message handler and the hand-over of `Server::start`, Network/Server/Loop the
--   whole of it, and Network/Server/Once a row of its events without the bytes; Peer/Serving joins these
--   two. Network/Quorum has the majority; Network/Client has the lists of `Client`,
--   Network/Client/Connect its `connect_to`; Network/Moves has the moves of both classes.
--   Network/Transfer joins the calls that a vertex goes through from one peer to another.
-- * peer.h and peer.cpp, the validator: Peer has the state; Peer/Setup has `setup_network`; Peer/Round
--   has the head of the loop of `buffer_scan_move_round` and `broadcast`; Peer/History has
--   `mutual_history`; Peer/Scan has the loop over the buffer; Peer/Order has `dag_scan` and
--   `total_order`; Peer/Digest has `hash_set` and `hash_dag`; Peer/Handshake has the steps of the two
--   threads around the mutex, the flag and the condition variable; Peer/Packing and Peer/Missing have
--   `send_missing_vertices` and `deliver_request`; Peer/Requests has `check_round` and `make_request`;
--   Peer/Turn has a whole turn of the loop; Peer/Records has the counts of `write_record`, Peer/Move the
--   move constructor.
-- * main.cpp, the parent process: Main has the digests that it reads and their comparison,
--   Main/Children what the children write, Main/Statuses the table of their exit statuses and what is
--   printed for it.
--
-- Prelude has the shared names and lemmas, Bytes has buffers, words in network order and decimal text,
-- and Tests has concrete inputs.
--
-- How they interact: the server thread examines a message, receives its vertices, keeps those with
-- enough references that are new, and hands them over to the buffer. The other thread of the peer scans
-- the buffer, puts vertices whose references are known into the DAG, and when the round is full enough
-- proposes a vertex of the next one, which the pool sends to all peers. Before that it answers the
-- requests that the server thread has put aside; a peer that lacks vertices of a round sends requests to
-- their owners and to others. When the loop is left, the server is told to end, and the process gives
-- the digest of its DAG to the parent, which compares the digests.
--
-- State is passed explicitly, one function for each method. `Option` is `none` and `Outcome` is
-- `undefined` where the code accesses memory outside of an array or has other undefined behaviour, and
-- an `exit` of the process is `exits`. Numbers are those of the code: sizes wrap at 2 ^ 64, the count of
-- `serialize_data` and the offset of `deserialize_data` at 2 ^ 32. An `int` that only counts rounds or
-- peers is a natural number; the round of a vertex, which comes from the network, is an integer.
--
-- Fuel: `scan` takes the number of received bytes, since each round of the loop passes one at least.
-- `c_recvn` takes one unit for each call of `recv`; one is enough for a packet that ends with its
-- delimiters. The send loop ends with the list of the answers of the operating system.
--
-- Parameters: SHA-256 and the hexadecimal encoder of Crypto++ are the record `Crypto`, with the sizes
-- of a digest and of its encoding; the macros of sys/wait.h are the record `WaitMacros`; random draws,
-- the answers of the system to `send`, `accept` and the calls of epoll, and the bytes of a connection
-- are arguments. A set is the list of its members in the order in which its table goes through them.
--
-- Not modelled: in main.cpp the start of the processes, the arguments, the clock and two handlers of
-- signals that nothing installs; socket, bind and listen in the constructor of the server; what is
-- written to files and logs; the start of the threads of a peer. The threads of check_round are recorded
-- where they are started, and check_round is a function on the peer: how their steps mix with those of
-- the other threads is not modelled. The mutex that the server and the peer share is modelled in
-- Peer/Handshake, where an entry is anything, and those of the map and the set in Containers/Lock.
pub mod Prelude
pub mod Bytes
pub mod Vertex
pub mod Containers
pub mod Network
pub mod Peer
pub mod Main
pub mod Tests

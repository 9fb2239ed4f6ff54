-- ===== src/Containers.antt =====
-- DataStructs/threadsafe.h: the map, the set and the thread pool, each method as one atomic step.
pub mod Map
pub mod Set
pub mod Threadpool
pub mod Lock

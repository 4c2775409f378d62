-- ===== src/Kaapi.antt =====
-- The runtime, kaapi/.
pub mod Replica
pub mod HashMap
pub mod Queue
pub mod Heap
pub mod Dependencies
pub mod Stream
pub mod Cache

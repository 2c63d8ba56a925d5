-- ===== src/Dht.antt =====
-- p2p/dht/route_table.go and p2p/dht/peer.go: the routing table of the distributed hash table.
pub mod Defs
pub mod Table
pub mod Update
pub mod Life
pub mod Closest
mod Tests

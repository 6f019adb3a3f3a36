-- ===== src/Cluster.antt =====
-- internal/cluster: a node, the messages of the cluster, seeding, key queries, the challenge that
-- validates a stored key, and heartbeats.
pub mod Message
pub mod Seed
pub mod HeartBeat
pub mod Node
pub mod Election
pub mod System
pub mod Bootstrap
pub mod Transport
pub mod Lifecycle
pub mod Startup

-- ===== src/Routing.antt =====
-- The routing of requests to workers: TokenSim/placement/consistent_hash.py, with its hash functions (Hash),
-- its ring of virtual nodes (Ring), its sessions (Sessions) and the replay of a recorded mapping (Fixed).
pub mod Hash
pub mod Ring
pub mod Sessions
pub mod Nodes
pub mod Visits
pub mod Affinity
pub mod Fixed

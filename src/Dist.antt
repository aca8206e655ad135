-- ===== src/Dist.antt =====
-- The transport between pipeline stages.
pub mod Entropy
pub mod PeerRoutes
pub mod Pipeline

-- ===== src/Tests.antt =====
-- Concrete instances of the theorems.
mod World
mod Nodes
mod Clusters
mod Client
mod Deletions
mod Manager
mod Pure
mod Bundles
mod Settled
mod Configs

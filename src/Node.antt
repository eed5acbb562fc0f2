-- ===== src/Node.antt =====
-- internal/controller, the TalosNode controller.
pub mod Status
pub mod Version
pub mod Access
pub mod Upgrade
pub mod Extensions
pub mod Reset
pub mod Etcd
pub mod Drain
pub mod Patches
pub mod Apply
pub mod Deletion
pub mod Reconcile
pub mod Settled
pub mod Declared

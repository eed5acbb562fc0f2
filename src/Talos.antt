-- ===== src/Talos.antt =====
-- internal/talos: the helpers on finalizers, conditions, etcd members, secrets and configs.
pub mod Finalizer
pub mod Conditions
pub mod Etcd
pub mod Secrets
pub mod Generate
pub mod Client

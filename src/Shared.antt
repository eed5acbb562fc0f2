-- ===== src/Shared.antt =====
-- What the three controllers share: names.go, constants.go and helpers.go of internal/controller.
pub mod Names
pub mod Constants
pub mod Helpers
pub mod Secrets

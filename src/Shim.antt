-- ===== src/Shim.antt =====
-- The prover shim of the wallet, wallet/app/src/main/assets/prover/raiz-shim.js.
pub mod Codec
pub mod Events
pub mod Prover
pub mod Builders
pub mod Goal

-- ===== src/Shim/Prover.antt =====
-- `window.RaizProver` of raiz-shim.js, lines 119-347: witnesses, the engine's lazy caches, and proofs.
pub mod Output
pub mod Engine
pub mod Generate

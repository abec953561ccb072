-- ===== src/Tools.antt =====
-- The tools of the wallet.
pub mod SignFixture
pub mod Files
pub mod ProverAssets

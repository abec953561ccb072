-- ===== src/Shim/Events.antt =====
-- Raw events and the paged event source: raiz-shim.js lines 583-682.
pub mod Raw
pub mod Pages

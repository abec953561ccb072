-- ===== src/Shim/Goal.antt =====
-- `goalTotal` of raiz-shim.js, lines 568-572 and 712-932: the total of a goal, opened with the published view
-- key and checked against the commitments that the chain holds.
pub mod Ledger
pub mod Checks
pub mod Query
pub mod Total
pub mod Openings
pub mod Proved
pub mod Verdict
pub mod Honest
pub mod Amounts

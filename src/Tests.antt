-- ===== src/Tests.antt =====
-- Runs of the modelled code on a small vendor, and each property at a concrete input.
mod Demo
mod Goal
mod Prover
mod Scripts
mod Receipts
mod Server
mod Tools
mod Audit
mod Pages
mod Secrets
mod CtFlow
mod Deploy
mod Bench

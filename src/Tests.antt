-- ===== src/Tests.antt =====
-- A small topology and a run of it, and the theorems at them.
mod Sample
mod Program
mod Renders
mod Parts
mod Runs
mod Floats
mod Vlans
mod Pairs
mod Ledger
mod Session
mod EnvFile
mod Analysis
mod Faults

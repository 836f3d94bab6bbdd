-- ===== src/Runs.antt =====
-- Runs at concrete inputs, and the theorems at inputs that meet their hypotheses.
mod Samples
mod Shards
mod Maps
mod Temps
mod Rows
mod Tasks
mod Schema
mod Entries
mod Indices
mod HashIndex
mod Tables
mod Queries
mod Reconciled

-- ===== src/Tests.antt =====
-- Tests and concrete instances.
mod SatRuns
mod Resolution
mod Transactions
mod Commits
mod Queries
mod Versions
mod Maps
mod Graphs
mod Candidates

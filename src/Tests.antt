-- ===== src/Tests.antt =====
-- Concrete machines, tries and sessions, and the theorems at inputs of theirs.
mod Toy
mod Runs
mod ToySessions
mod Sessions
mod Loops
mod Pairs
mod Samples
mod Watch
mod Values
mod Cards
mod Documents
mod Stuck
mod Threads
mod Process
mod Resolvers
mod Reports

-- ===== src/Tests.antt =====
-- Concrete runs of the model, and the theorems at inputs that meet their hypotheses.
mod Samples
mod Ledger
mod Spawning
mod Answers
mod Planning
mod Runs
mod Resilience
mod Parallel
mod Contexts
mod Digests
mod Codecs
mod Stores
mod Jobs
mod Batches
mod Messages
mod Limits
mod Identities

-- ===== src/Tests.antt =====
-- Examples: each applies a theorem to concrete data.
mod Numbers
mod Integers
mod Cluster
mod Schedules
mod Limits
mod Quotas
mod Volumes
mod Networks
mod Lifecycles
mod Inputs
mod Queues
mod Reports
mod Streams
mod Tokens

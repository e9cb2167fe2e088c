-- ===== src/Tests.antt =====
-- The theorems at concrete inputs: a wire, a queue and runs of the acceptance.
mod Wire
mod Tasks
mod Decision
mod Planning
mod Outboxes
mod Requests
mod Calls
mod Staging
mod Documents
mod Stopping
mod Answers
mod Rounds

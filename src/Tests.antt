-- ===== src/Tests.antt =====
-- The theorems at concrete inputs.
mod Breaker
mod Keys
mod Calls
mod Streams
mod Numbers
mod Sessions
mod Transcripts
mod Egress
mod Realtimes
mod Checks
mod Claude
mod Chats
mod Models
mod Costs

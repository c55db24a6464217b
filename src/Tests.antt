-- ===== src/Tests.antt =====
-- The theorems at concrete inputs.
mod Threads
mod Managers
mod Texts
mod Web
mod JsonTree
mod Tokens
mod Queries
mod Sound
mod Started
mod Bulbs
mod Configured
mod Remote

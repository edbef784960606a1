-- ===== src/Examples.antt =====
-- The theorems at concrete inputs.
mod Joiners
mod Messages
mod Tools
mod Service
mod Workers
mod Publishers
mod Sessions
mod Requests

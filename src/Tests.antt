-- ===== src/Tests.antt =====
-- The theorems at concrete inputs, and runs of the code.
mod Decimal
mod Protocol
mod Events
mod Clients
mod Start
mod Runs
mod Firing
mod Loops
mod Sockets
mod Recordings

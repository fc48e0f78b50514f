-- ===== src/Examples.antt =====
-- The theorems at concrete inputs.
mod Zeros
mod Lengths
mod Packets
mod Topics
mod Grants
mod Session
mod Loop
mod Traffic
mod Connecting
mod Calls
mod Ticks

-- ===== src/Tests.antt =====
-- The theorems at concrete inputs, and runs of the modelled code.
mod Packets
mod Selective
mod Sessions
mod Stop
mod Router
mod Opening
mod Files
mod Server
mod Upload
mod Faults
mod Programs
mod Topology

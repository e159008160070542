-- ===== src/Examples.antt =====
-- Concrete runs of the modelled code, and the theorems at concrete inputs.
mod Packets
mod Records
mod Runs
mod Captures
mod Streams
mod Setups
mod Leaders
mod Datagrams
mod Blocks
mod Tables
mod Groups
mod Pipelines
mod Runner
mod Interfaces

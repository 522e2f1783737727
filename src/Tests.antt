-- ===== src/Tests.antt =====
-- The theorems at concrete inputs, and runs of the definitions.
mod Machine
mod Regions
mod Commands
mod Loads
mod Workers
mod Threads
mod Programs
mod Samples
mod Measured
mod Copied

-- ===== src/Examples.antt =====
-- The operations on small inputs, with the theorems applied to them.
mod Poller
mod Tables
mod Rounds
mod Timers
mod Networks
mod Servers
mod Threads
mod Acceptors
mod Lifecycles
mod Descriptors
mod Addresses
mod Lines
mod Handshakes
mod Peers
mod Runs

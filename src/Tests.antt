-- ===== src/Tests.antt =====
-- Runs of the models on small inputs, and the theorems at inputs that meet their hypotheses.
mod Node
mod Chain
mod Eth
mod Consensus
mod P2p
mod Rawdb
mod Topics
mod Uptime
mod Common
mod Pool
mod Client
mod Setup
mod Requests
mod Start
mod Gsn
mod Epoch
mod Lookup
mod Schedule
mod Storage
mod Run

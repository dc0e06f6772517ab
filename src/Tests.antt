-- ===== src/Tests.antt =====
-- Runs at concrete inputs: the parameters are given by the concrete functions of the child modules
-- Outside and Database.
pub mod Outside
mod Contract
pub mod Database
pub mod Nodes
mod Fetches
pub mod Writer
mod Storage
mod EndToEnd
pub mod Timing
mod Importer
mod Source
mod Http
mod Config
mod Redact
mod Domain
mod App
mod Running
pub mod Service
pub mod Keeper
mod Scheduled

-- ===== src/UnitTests.antt =====
-- The unit tests that stand in the source files: what each asserts, as a statement about the model, and
-- that the model meets it.
-- Code outside the repository is given by the concrete functions of `Tests` and of StandIns.
pub mod StandIns
pub mod Calendar
mod Format
mod Postgres
pub mod Dto
mod Importer
mod Config
pub mod Router
mod Response
mod Telemetry
mod App

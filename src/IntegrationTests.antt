-- ===== src/IntegrationTests.antt =====
-- The integration tests of tests/: what each asserts, as a statement about the model, and that the model
-- meets it. The servers that they run against are given by the concrete functions of Reader, Servers,
-- Pool and `Tests`.
mod Reader
mod Fixture
mod Servers
mod MempoolClient
mod Importing
mod Pool
mod Api
mod InProcess
mod Binary
mod Repository

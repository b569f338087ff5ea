-- ===== src/Testing.antt =====
-- src/testing: the support for tests. The fixtures, which are constant texts, are left out.
pub mod MockServer
pub mod Received
pub mod Assertions

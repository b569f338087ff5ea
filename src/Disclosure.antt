-- ===== src/Disclosure.antt =====
-- src/disclosure: the disclosure evaluation engine.
mod Examples
pub mod Matching
pub mod Consent
pub mod RateLimit
pub mod Values
pub mod Extract
pub mod Parsed
pub mod Evaluate

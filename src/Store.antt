-- ===== src/Store.antt =====
-- board/store: the one reader of the artifact store.
pub mod Types
pub mod Decode
pub mod Reading
pub mod Scan
pub mod Soundness
pub mod Readings
pub mod Accounts
pub mod Disclosure
pub mod Failures

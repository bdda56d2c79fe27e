-- ===== src/Utils.antt =====
-- The helpers of utils.
pub mod Texts
pub mod Bip21
pub mod Secrets
pub mod Retry
pub mod Tests

-- ===== src/Security.antt =====
-- security/: the identity of a device.
pub mod Identity
pub mod Tests

-- ===== src/Auth.antt =====
-- ppp/lib_component/auth_local_service: accounts, their usage and the blocking of accounts.
pub mod Types
pub mod Service
pub mod Reporting
pub mod References
pub mod Blocking
pub mod Decision
mod Tests

-- ===== src/Audit.antt =====
-- ppp/lib_component/audit_service: what the audit service reports, and to which server.
pub mod Usage
pub mod Domain
pub mod Collectors
mod Tests
